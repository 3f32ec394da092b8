-- ===== src/RuntimeB/Command/Guards.antt =====
-- What the command's application answers to a request without an accepted credential.
use ne_kiro_samples.Base.{
  String, Bool, false, ◌≡◌, sym, ap, ◌∙◌, Option, some, ok, bind_then, ok_inj,
}
use mathlib.Core.Path.{ap₂}
use ne_kiro_samples.Settings.{Lookup}
use ne_kiro_samples.Web.{Request, Answer, HttpHandler, Readiness, Web, Protects}
use ne_kiro_samples.ChallengeProof
use ne_kiro_samples.ChallengeProof.Start.{Files, Directory, application}
use ne_kiro_samples.Command.{Registration, HostConfig, new_runtime_registration}
use ne_kiro_samples.Platform.{RouterAuth}
use ne_kiro_samples.RuntimeB.Config.{Config}
use ne_kiro_samples.RuntimeB.Handler.{Handler}
use ne_kiro_samples.RuntimeB.Configured.{new_configured_handler}
use ne_kiro_samples.RuntimeB.Server.{new_http_handler_with_auth_and_readiness}
use ne_kiro_samples.RuntimeB.Server.Guards.{authenticated_handler_guards}
use ne_kiro_samples.RuntimeB.Command.{Packages, prepare}
use ne_kiro_samples.RuntimeB.Command.Prepared.{IsReady, prepare-IsReady}

built_middleware :
    (web : Web) (rpc : Handler → HttpHandler) (h : Handler) (auth : RouterAuth)
    (readiness : Readiness) {served : HttpHandler}
    → new_http_handler_with_auth_and_readiness web rpc (some h) auth (some readiness) ≡ ok served
    → (m : HttpHandler → HttpHandler) × (web.new_middleware auth ≡ ok m)
unfolding new_http_handler_with_auth_and_readiness
built_middleware web rpc h auth readiness e =
    bind_then (web.new_middleware auth) _ e λ m found e. (m, found)

same_route :
    (files : Files) (lookup : Lookup) (one two : ChallengeProof.Handler)
    → Directory files lookup one
    → Directory files lookup two
    → one ≡ two
same_route files lookup one two d f =
    ap (λ text. record { directory = text }) (same_text (sym d.given ∙ f.given))
  where
    same_text : {s t : String} → ◌≡◌ {A = Option String} (some s) (some t) → s ≡ t
    same_text e = cc

abbrev pub with_server : Packages → (Handler → HttpHandler) → Packages
with_server given rpc = record given { new_json_rpc = rpc }

module _ (given : Packages) (other : Handler → HttpHandler) (lookup : Lookup) (c k : HostConfig)
    (p : IsReady given lookup c) (q : IsReady (with_server given other) lookup k) where
  same_config : p.config ≡ q.config
  same_config = ok_inj (sym p.loaded ∙ q.loaded)

  same_handler : p.handler ≡ q.handler
  same_handler =
      ok_inj
        (sym p.made ∙ (ap (new_configured_handler given.env given.new_client) same_config ∙ q.made))

  same_registration : p.registration_config ≡ q.registration_config
  same_registration = ok_inj (
      sym p.configured
      ∙ (ap
            (λ (s : Config).
              given.host.load_registration lookup "RUNTIME_B" s.agent_id s.instance_id)
            same_config
          ∙ q.configured))

  same_readiness : p.readiness ≡ q.readiness
  same_readiness =
      ap (λ (r : Option Registration × Readiness). r.1)
        (ok_inj (
          sym p.registers
          ∙ (ap (new_runtime_registration given.host) same_registration ∙ q.registers)))

  other_built :
      new_http_handler_with_auth_and_readiness given.web other
        (some p.handler)
        p.config.router_auth
        (some p.readiness)
      ≡ ok q.served
  other_built =
      ap₂
        (λ h r.
          new_http_handler_with_auth_and_readiness given.web other (some h) p.config.router_auth
            (some r))
        same_handler same_readiness
      ∙ (ap
            (λ (s : Config).
              new_http_handler_with_auth_and_readiness given.web other (some q.handler)
                s.router_auth (some q.readiness))
            same_config
          ∙ q.built)

  same_answer :
      (accepts : Request → Bool) (ready : Bool) (request : Request)
      → ((auth : RouterAuth) (m : HttpHandler → HttpHandler)
          → given.web.new_middleware auth ≡ ok m
          → Protects accepts m)
      → accepts request ≡ false
      → c.application ready request ≡ k.application ready request
  same_answer accepts ready request protects refused =
      let (m, made) =
        built_middleware given.web given.new_json_rpc p.handler p.config.router_auth p.readiness
          p.built in
      ap (λ (f : HttpHandler). f ready request) p.composed
      ∙ (ap₂ (λ route own. answered route own)
            (same_route given.files lookup p.route q.route p.directory q.directory)
            (authenticated_handler_guards given.web accepts given.new_json_rpc other p.handler
              p.config.router_auth p.readiness m p.served q.served ready request made
              (protects p.config.router_auth m made) p.built other_built refused)
          ∙ ap (λ (f : HttpHandler). f ready request) (sym q.composed))
    where
      answered : ChallengeProof.Handler → Answer → Answer
      answered route own = application given.proofs ((λ now asked. own), route) ready request

-- If every middleware of the packages protects what is behind it, then whatever JSON-RPC server the
-- command starts with, its application answers a request that the middleware does not accept in the same
-- way.
pub authenticated_command_guards :
    (given : Packages) (other : Handler → HttpHandler) (lookup : Lookup) (c k : HostConfig)
    (accepts : Request → Bool) (ready : Bool) (request : Request)
    → ((auth : RouterAuth) (m : HttpHandler → HttpHandler)
        → given.web.new_middleware auth ≡ ok m
        → Protects accepts m)
    → prepare given lookup ≡ ok c
    → prepare (with_server given other) lookup ≡ ok k
    → accepts request ≡ false
    → c.application ready request ≡ k.application ready request
authenticated_command_guards given other lookup c k accepts ready request protects e f refused =
    same_answer given other lookup c k (prepare-IsReady given lookup c e)
      (prepare-IsReady (with_server given other) lookup k f) accepts ready request protects refused
