-- ===== src/RuntimeB/Server.antt =====
-- runtime-b/server.go: the HTTP handler, and the listen address. The Content-Type that the handler sets
-- is left out.
pub mod Guards
pub mod Listen
use ne_kiro_samples.Base.{
  ℕ, String, Bool, true, false, not, ◌&&◌, ◌==◌, leb, Option, none, some, List, [], ◌∷◌, Outcome,
  ok, err, panic, plain, wrapped, guard, or_fail, if◌then◌else◌, ◌>>=◌, ◌>>◌,
}
use ne_kiro_samples.Platform.{RouterAuth}
use ne_kiro_samples.Settings.{Lookup, Environment}
use ne_kiro_samples.Web.{
  Request, Answer, status, page, HttpHandler, Readiness, static, is_ready, Web, serve_mux,
}
use ne_kiro_samples.RuntimeB.Handler.{Handler}

abbrev pub readyz : Readiness → HttpHandler
readyz readiness ready request = status (if is_ready readiness ready then 200 else 503)

abbrev pub unavailable : HttpHandler
unavailable ready request = page 503

abbrev pub routes_of :
    (HttpHandler → HttpHandler) → Readiness → HttpHandler → List (String × HttpHandler)
routes_of middleware readiness rpc =
    ("GET /readyz", readyz readiness)
    ∷ ("/unavailable", middleware unavailable)
    ∷ ("/", middleware rpc)
    ∷ []

-- NewHTTPHandlerWithAuthAndReadiness, with the JSON-RPC server of the a2a package; nil is `none`.
unfoldable pub new_http_handler_with_auth_and_readiness :
    Web
    → (Handler → HttpHandler)
    → Option Handler
    → RouterAuth
    → Option Readiness
    → Outcome HttpHandler
new_http_handler_with_auth_and_readiness web new_json_rpc given authentication readiness = do
  h ← or_fail given (plain "runtime-b handler is required")
  ready ← or_fail readiness (plain "runtime-b readiness is required")
  middleware ← web.new_middleware authentication
  ok (serve_mux web (routes_of middleware ready (new_json_rpc h)))

unfoldable pub new_http_handler_with_auth :
    Web → (Handler → HttpHandler) → Option Handler → RouterAuth → Outcome HttpHandler
unfolding new_http_handler_with_auth_and_readiness
new_http_handler_with_auth web new_json_rpc given authentication =
    new_http_handler_with_auth_and_readiness web new_json_rpc given authentication
      (some (static true))

abbrev pub split_address : Outcome (String × String) → Outcome (String × String)
split_address (ok parts) = ok parts
split_address (err e) = err (wrapped "RUNTIME_B_LISTEN_ADDR must be a host:port TCP address: " e)
split_address (panic m) = panic m

-- strconv.Atoi's number from 1 through 65535.
abbrev pub port_in_range : Option ℕ → Bool
port_in_range none = false
port_in_range (some port) = leb 1 port && leb port 65535

unfoldable pub listen_address_from_environment : Environment → Lookup → Outcome String
listen_address_from_environment env lookup = do
  address ← or_fail (lookup "RUNTIME_B_LISTEN_ADDR") (plain "RUNTIME_B_LISTEN_ADDR is required")
  guard (not (address == "") && env.trim_space address == address)
      (plain "RUNTIME_B_LISTEN_ADDR must be non-empty and contain no surrounding whitespace")
  parts ← split_address (env.split_host_port address)
  guard (not (parts.0 == "")) (plain "RUNTIME_B_LISTEN_ADDR must declare a host")
  guard (port_in_range (env.parse_int parts.1))
      (plain "RUNTIME_B_LISTEN_ADDR port must be an integer from 1 through 65535")
  ok address
