-- ===== src/RuntimeA/Server.antt =====
-- runtime-a/handler.go: the HTTP handler. The Content-Type that it sets is left out.
pub mod Guards
use ne_kiro_samples.Base.{
  ℕ, String, Bool, true, Option, none, some, List, [], ◌∷◌, Outcome, ok, err, panic, if◌then◌else◌,
  ◌>>=◌,
}
use ne_kiro_samples.Web.{
  Request, Answer, status, HttpHandler, Readiness, static, is_ready, Web, serve_mux,
}
use ne_kiro_samples.RuntimeA.Handler.{Handler}

abbrev pub or_panic {ℓ} : {A : Type ℓ} → Option A → String → Outcome A
or_panic none text = panic text
or_panic (some a) text = ok a

-- panic(err)
abbrev pub must {ℓ} : {A : Type ℓ} → Web → Outcome A → Outcome A
must web (ok a) = ok a
must web (err e) = panic (web.error_text e)
must web (panic m) = panic m

abbrev pub readyz : Readiness → HttpHandler
readyz readiness ready request = status (if is_ready readiness ready then 200 else 503)

abbrev pub routes_of :
    (HttpHandler → HttpHandler) → Readiness → HttpHandler → List (String × HttpHandler)
routes_of middleware readiness rpc = ("GET /readyz", readyz readiness) ∷ ("/", middleware rpc) ∷ []

-- NewHTTPHandlerWithReadiness, with the JSON-RPC server of the a2a package; nil is `none`.
unfoldable pub new_http_handler_with_readiness :
    Web → (Handler → HttpHandler) → Option Handler → Option Readiness → Outcome HttpHandler
new_http_handler_with_readiness web new_json_rpc given readiness = do
  h ← or_panic given "runtime-a handler is required"
  ready ← or_panic readiness "runtime-a readiness is required"
  middleware ← must web (web.new_middleware h.config.router_auth)
  ok (serve_mux web (routes_of middleware ready (new_json_rpc h)))

unfoldable pub new_http_handler :
    Web → (Handler → HttpHandler) → Option Handler → Outcome HttpHandler
unfolding new_http_handler_with_readiness
new_http_handler web new_json_rpc given =
    new_http_handler_with_readiness web new_json_rpc given (some (static true))
