-- ===== src/RuntimeA/Command/Prepared.antt =====
-- What a prepared command rests on.
use ne_kiro_samples.Base.{◌<◌, ◌≡◌, refl, ap, ◌∙◌, subst, some, ok, bind_then, ok_inj}
use ne_kiro_samples.Settings.{Lookup}
use ne_kiro_samples.Web.{HttpHandler, Readiness}
use ne_kiro_samples.ChallengeProof
use ne_kiro_samples.ChallengeProof.Start.{
  new_handler as new_challenge_handler, application, Directory, new_handler_iff, passes_agent,
}
use ne_kiro_samples.Command.{
  in_config, in_registration, in_handler, RegistrationConfig, HostConfig, at_stage, at_stage-eq-ok,
  new_runtime_registration, IsRegistered, new_runtime_registration-IsRegistered,
  shutdown_timeout_of-positive,
}
use ne_kiro_samples.RuntimeA.Config.{Config, load_config}
use ne_kiro_samples.RuntimeA.Config.Bounds.{IsBounded, load_config-IsBounded}
use ne_kiro_samples.RuntimeA.Handler.{Handler, new_handler}
use ne_kiro_samples.RuntimeA.Server.{new_http_handler_with_readiness}
use ne_kiro_samples.RuntimeA.Command.{Packages, prepare}

-- The host's settings come from one configuration of the environment: its address, the registration
-- under its names, the handler behind the HTTP server, and the challenge route before it.
pub record IsPrepared (given : Packages) (lookup : Lookup) (c : HostConfig) : Type 0 where
  pub config : Config
  pub loaded : load_config given.env lookup ≡ ok config
  pub bounded : IsBounded given.env config
  pub address : c.address ≡ config.listen_address
  pub registration_config : RegistrationConfig
  pub configured :
      given.host.load_registration lookup "RUNTIME_A" config.agent_id config.instance_id
      ≡ ok registration_config
  pub readiness : Readiness
  pub registers :
      new_runtime_registration given.host registration_config ≡ ok (c.registration, readiness)
  pub registered_as : IsRegistered given.host registration_config (c.registration, readiness)
  pub timeout : 0 < c.shutdown_timeout
  pub handler : Handler
  pub made :
      new_handler given.env given.lib given.framework given.profile given.new_client config
      ≡ ok handler
  pub served : HttpHandler
  pub built :
      new_http_handler_with_readiness given.web given.new_json_rpc (some handler) (some readiness)
      ≡ ok served
  pub route : ChallengeProof.Handler
  pub directory : Directory given.files lookup route
  pub composed : c.application ≡ application given.proofs (served, route)

guarded-Directory :
    (given : Packages) (lookup : Lookup) (served : HttpHandler)
    (made : HttpHandler × ChallengeProof.Handler)
    → new_challenge_handler given.files (some served) (some lookup) ≡ ok made
    → Directory given.files lookup made.1
guarded-Directory given lookup served (agent, h) e =
    (new_handler_iff given.files lookup served h).0
      (e ∙ ap (λ a. ok (a, h)) (passes_agent given.files lookup served (agent, h) e))

-- If runWithLookup gets as far as the host, the host's settings are prepared as `IsPrepared` says: one
-- configuration within its bounds gives the address, the registration and the handler, the agent is
-- registered unless that is disabled, the shutdown has time, and the agent's HTTP handler stands behind
-- a challenge route with a valid directory.
pub prepare-IsPrepared :
    (given : Packages) (lookup : Lookup) (c : HostConfig)
    → prepare given lookup ≡ ok c
    → IsPrepared given lookup c
unfolding prepare
prepare-IsPrepared given lookup c e =
    bind_then (at_stage given.host in_config _ (load_config given.env lookup)) _ e
      λ config loaded e.
        bind_then
          (at_stage given.host in_config _
            (given.host.load_registration lookup "RUNTIME_A" config.agent_id config.instance_id))
          _ e
          λ rc configured e.
            bind_then
              (at_stage given.host in_registration _ (new_runtime_registration given.host rc)) _ e
              λ registration registers e.
                bind_then
                  (at_stage given.host in_handler _ (
                    new_handler given.env given.lib given.framework given.profile given.new_client
                      config))
                  _ e
                  λ handler made e.
                    bind_then
                      (new_http_handler_with_readiness given.web given.new_json_rpc (some handler)
                        (some registration.1))
                      _ e
                      λ served built e.
                        bind_then
                          (at_stage given.host in_handler _
                            (new_challenge_handler given.files (some served) (some lookup)))
                          _ e
                          λ guarded challenge e.
                            let loads =
                              at_stage-eq-ok given.host in_config _ (load_config given.env lookup)
                                loaded in
                            let guards = at_stage-eq-ok given.host in_handler _ _ challenge in
                            subst (IsPrepared given lookup) (ok_inj e) (record {
                              config = config;
                              loaded = loads;
                              bounded = load_config-IsBounded given.env lookup config loads;
                              address = refl;
                              registration_config = rc;
                              configured = at_stage-eq-ok given.host in_config _ _ configured;
                              readiness = registration.1;
                              registers = at_stage-eq-ok given.host in_registration _ _ registers;
                              registered_as =
                                  new_runtime_registration-IsRegistered given.host rc registration
                                    (at_stage-eq-ok given.host in_registration _ _ registers);
                              timeout = shutdown_timeout_of-positive rc;
                              handler = handler;
                              made = at_stage-eq-ok given.host in_handler _ _ made;
                              served = served;
                              built = built;
                              route = guarded.1;
                              directory = guarded-Directory given lookup served guarded guards;
                              composed =
                                  ap (λ a. application given.proofs (a, guarded.1))
                                    (passes_agent given.files lookup served guarded guards);
                            })
