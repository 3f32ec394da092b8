-- ===== src/RuntimeB/Server/Guards.antt =====
-- What a request without an accepted credential gets.
use ne_kiro_samples.Base.{
  ℕ, zero, suc, Bool, false, ◌≡◌, refl, sym, ap, ◌∙◌, Option, none, some, ok, ok_inj, bind_then,
}
use ne_kiro_samples.Platform.{RouterAuth}
use ne_kiro_samples.Web.{
  Request, Answer, HttpHandler, Readiness, Web, chosen, serve_mux, patterns, Protects,
}
use ne_kiro_samples.RuntimeB.Handler.{Handler}
use ne_kiro_samples.RuntimeB.Server.{routes_of, new_http_handler_with_auth_and_readiness}

chosen-guards :
    (accepts : Request → Bool) (m : HttpHandler → HttpHandler) (readiness : Readiness)
    (rpc other : HttpHandler) (ready : Bool) (request : Request) (otherwise : Answer) (o : Option ℕ)
    → Protects accepts m
    → accepts request ≡ false
    → chosen (routes_of m readiness rpc) o otherwise ready request
      ≡ chosen (routes_of m readiness other) o otherwise ready request
chosen-guards accepts m readiness rpc other ready request otherwise none protects refused = refl
chosen-guards accepts m readiness rpc other ready request otherwise (some zero) protects refused =
    refl
chosen-guards accepts m readiness rpc other ready request otherwise (some (suc zero)) protects
      refused =
    refl
chosen-guards accepts m readiness rpc other ready request otherwise (some (suc (suc zero))) protects
      refused =
    protects rpc other ready request refused
chosen-guards accepts m readiness rpc other ready request otherwise (some (suc (suc (suc n))))
      protects refused =
    refl

-- If the middleware of the authentication that it is given protects what is behind it, the handler
-- answers a request that the middleware does not accept in the same way whatever JSON-RPC server it has.
pub authenticated_handler_guards :
    (web : Web) (accepts : Request → Bool) (new_json_rpc other : Handler → HttpHandler)
    (h : Handler) (authentication : RouterAuth) (readiness : Readiness)
    (m : HttpHandler → HttpHandler) (app app_other : HttpHandler) (ready : Bool) (request : Request)
    → web.new_middleware authentication ≡ ok m
    → Protects accepts m
    → new_http_handler_with_auth_and_readiness web new_json_rpc
        (some h)
        authentication
        (some readiness)
      ≡ ok app
    → new_http_handler_with_auth_and_readiness web other (some h) authentication (some readiness)
      ≡ ok app_other
    → accepts request ≡ false
    → app ready request ≡ app_other ready request
unfolding new_http_handler_with_auth_and_readiness
authenticated_handler_guards web accepts new_json_rpc other h authentication readiness m app
      app_other ready request made protects e f refused =
    sym (served new_json_rpc app e)
    ∙ (chosen-guards accepts m readiness (new_json_rpc h) (other h) ready request
          (web.unmatched (patterns (routes_of m readiness (new_json_rpc h))) request)
          (web.pick (patterns (routes_of m readiness (new_json_rpc h))) request) protects refused
        ∙ served other app_other f)
  where
    served :
        (rpc : Handler → HttpHandler) (built : HttpHandler)
        → new_http_handler_with_auth_and_readiness web rpc (some h) authentication (some readiness)
          ≡ ok built
        → serve_mux web (routes_of m readiness (rpc h)) ready request ≡ built ready request
    served rpc built e = bind_then (web.new_middleware authentication) _ e λ given found e.
        let one : m ≡ given = ok_inj (sym made ∙ found) in
        ap (λ k. serve_mux web (routes_of k readiness (rpc h)) ready request) one
        ∙ ap (λ (f : HttpHandler). f ready request) (ok_inj e)
