-- ===== src/RuntimeA/Server/Guards.antt =====
-- What a request without an accepted credential gets.
use ne_kiro_samples.Base.{
  ℕ, zero, suc, Bool, false, ◌≡◌, refl, sym, ap, ◌∙◌, Option, none, some, Outcome, ok, err, panic,
  ok_inj, bind_then,
}
use ne_kiro_samples.Web.{
  Request, Answer, HttpHandler, Readiness, Web, chosen, serve_mux, patterns, Protects,
}
use ne_kiro_samples.RuntimeA.Handler.{Handler}
use ne_kiro_samples.RuntimeA.Server.{must, routes_of, new_http_handler_with_readiness}

pub must-eq-ok :
    (web : Web) (o : Outcome (HttpHandler → HttpHandler)) {m : HttpHandler → HttpHandler}
    → must web o ≡ ok m
    → o ≡ ok m
must-eq-ok web (ok given) e = e
must-eq-ok web (err x) e = cc
must-eq-ok web (panic text) e = cc

chosen-guards :
    (accepts : Request → Bool) (m : HttpHandler → HttpHandler) (readiness : Readiness)
    (rpc other : HttpHandler) (ready : Bool) (request : Request) (otherwise : Answer) (o : Option ℕ)
    → Protects accepts m
    → accepts request ≡ false
    → chosen (routes_of m readiness rpc) o otherwise ready request
      ≡ chosen (routes_of m readiness other) o otherwise ready request
chosen-guards accepts m readiness rpc other ready request otherwise none protects refused = refl
chosen-guards accepts m readiness rpc other ready request otherwise (some zero) protects refused =
    refl
chosen-guards accepts m readiness rpc other ready request otherwise (some (suc zero)) protects
      refused =
    protects rpc other ready request refused
chosen-guards accepts m readiness rpc other ready request otherwise (some (suc (suc n))) protects
      refused =
    refl

-- If the middleware protects what is behind it, the answer to a request that it does not accept is the
-- same whatever JSON-RPC server the handler has: no such request reaches the agent.
pub http_handler_guards :
    (web : Web) (accepts : Request → Bool) (new_json_rpc other : Handler → HttpHandler)
    (h : Handler) (readiness : Readiness) (m : HttpHandler → HttpHandler)
    (app app_other : HttpHandler) (ready : Bool) (request : Request)
    → web.new_middleware h.config.router_auth ≡ ok m
    → Protects accepts m
    → new_http_handler_with_readiness web new_json_rpc (some h) (some readiness) ≡ ok app
    → new_http_handler_with_readiness web other (some h) (some readiness) ≡ ok app_other
    → accepts request ≡ false
    → app ready request ≡ app_other ready request
unfolding new_http_handler_with_readiness
http_handler_guards web accepts new_json_rpc other h readiness m app app_other ready request made
      protects e f refused =
    sym (served new_json_rpc app e)
    ∙ (chosen-guards accepts m readiness (new_json_rpc h) (other h) ready request
          (web.unmatched (patterns (routes_of m readiness (new_json_rpc h))) request)
          (web.pick (patterns (routes_of m readiness (new_json_rpc h))) request) protects refused
        ∙ served other app_other f)
  where
    served :
        (rpc : Handler → HttpHandler) (built : HttpHandler)
        → new_http_handler_with_readiness web rpc (some h) (some readiness) ≡ ok built
        → serve_mux web (routes_of m readiness (rpc h)) ready request ≡ built ready request
    served rpc built e =
        bind_then (must web (web.new_middleware h.config.router_auth)) _ e λ given found e.
          let one : m ≡ given = ok_inj (sym made ∙ must-eq-ok web _ found) in
          ap (λ k. serve_mux web (routes_of k readiness (rpc h)) ready request) one
          ∙ ap (λ (f : HttpHandler). f ready request) (ok_inj e)
