-- ===== src/RuntimeB/Command/Prepared.antt =====
-- What a prepared command rests on.
use ne_kiro_samples.Base.{◌<◌, ◌≡◌, sym, ap, ◌∙◌, subst, some, ok, bind_then, ok_inj}
use ne_kiro_samples.Settings.{Lookup, Environment}
use ne_kiro_samples.Platform.{RouterAuth}
use ne_kiro_samples.Web.{HttpHandler, Readiness}
use ne_kiro_samples.ChallengeProof
use ne_kiro_samples.ChallengeProof.Start.{
  new_handler as new_challenge_handler, application, Directory, new_handler_iff, passes_agent,
}
use ne_kiro_samples.Command.{
  in_config, in_registration, in_handler, RegistrationConfig, HostConfig, at_stage, at_stage-eq-ok,
  new_runtime_registration, IsRegistered, new_runtime_registration-IsRegistered,
  shutdown_timeout_of-positive,
}
use ne_kiro_samples.RuntimeB.Config.{Config, load_config}
use ne_kiro_samples.RuntimeB.Config.Loaded.{load_config-Describes}
use ne_kiro_samples.RuntimeB.Handler.{Handler}
use ne_kiro_samples.RuntimeB.Configured.{new_configured_handler}
use ne_kiro_samples.RuntimeB.Server.Listen.{Listens, listen_address_iff}
use ne_kiro_samples.RuntimeB.Server.{
  listen_address_from_environment, new_http_handler_with_auth_and_readiness,
}
use ne_kiro_samples.RuntimeB.Command.{Packages, prepare}

-- The host's settings come from the environment: the listen address, one configuration with the
-- registration under its names, the handler behind the HTTP server with the configuration's router
-- authentication, and the challenge route before it.
pub record IsReady (given : Packages) (lookup : Lookup) (c : HostConfig) : Type 0 where
  pub config : Config
  pub loaded : load_config given.env lookup ≡ ok config
  pub address : Listens given.env lookup c.address
  pub registration_config : RegistrationConfig
  pub configured :
      given.host.load_registration lookup "RUNTIME_B" config.agent_id config.instance_id
      ≡ ok registration_config
  pub readiness : Readiness
  pub registers :
      new_runtime_registration given.host registration_config ≡ ok (c.registration, readiness)
  pub registered_as : IsRegistered given.host registration_config (c.registration, readiness)
  pub timeout : 0 < c.shutdown_timeout
  pub handler : Handler
  pub made : new_configured_handler given.env given.new_client config ≡ ok handler
  pub served : HttpHandler
  pub built :
      new_http_handler_with_auth_and_readiness given.web given.new_json_rpc
        (some handler)
        config.router_auth
        (some readiness)
      ≡ ok served
  pub route : ChallengeProof.Handler
  pub directory : Directory given.files lookup route
  pub composed : c.application ≡ application given.proofs (served, route)

-- The command and LoadConfig read the same authentication.
same_authentication :
    (env : Environment) (lookup : Lookup) (authentication : RouterAuth) (config : Config)
    → env.load_router_auth lookup ≡ ok authentication
    → load_config env lookup ≡ ok config
    → config.router_auth ≡ authentication
same_authentication env lookup authentication config e loads =
    ok_inj (sym ((load_config-Describes env lookup config).0 loads).auth ∙ e)

guarded-Directory :
    (given : Packages) (lookup : Lookup) (served : HttpHandler)
    (made : HttpHandler × ChallengeProof.Handler)
    → new_challenge_handler given.files (some served) (some lookup) ≡ ok made
    → Directory given.files lookup made.1
guarded-Directory given lookup served (agent, h) e =
    (new_handler_iff given.files lookup served h).0
      (e ∙ ap (λ a. ok (a, h)) (passes_agent given.files lookup served (agent, h) e))

-- If runWithLookup gets as far as the host, the host's settings are as `IsReady` says: the address is
-- the one of the environment, one configuration gives the registration, the handler and the router
-- authentication that the HTTP handler asks for, the agent is registered unless that is disabled, the
-- shutdown has time, and a challenge route with a valid directory stands before it all.
pub prepare-IsReady :
    (given : Packages) (lookup : Lookup) (c : HostConfig)
    → prepare given lookup ≡ ok c
    → IsReady given lookup c
unfolding prepare
prepare-IsReady given lookup c e =
    bind_then (at_stage given.host in_config _ (listen_address_from_environment given.env lookup)) _
      e
      λ address listens e.
        bind_then (at_stage given.host in_config _ (given.env.load_router_auth lookup)) _ e
          λ authentication secured e.
            bind_then (at_stage given.host in_config _ (load_config given.env lookup)) _ e
              λ config loaded e.
                bind_then
                  (at_stage given.host in_config _ (
                    given.host.load_registration lookup "RUNTIME_B" config.agent_id
                      config.instance_id))
                  _ e
                  λ rc configured e.
                    bind_then
                      (at_stage given.host in_registration _
                        (new_runtime_registration given.host rc))
                      _ e
                      λ registration registers e.
                        bind_then
                          (at_stage given.host in_handler _
                            (new_configured_handler given.env given.new_client config))
                          _ e
                          λ handler made e.
                            bind_then
                              (at_stage given.host in_handler _ (
                                new_http_handler_with_auth_and_readiness given.web
                                  given.new_json_rpc (some handler) authentication
                                  (some registration.1)))
                              _ e
                              λ served built e.
                                bind_then
                                  (at_stage given.host in_handler _
                                    (new_challenge_handler given.files (some served) (some lookup)))
                                  _ e
                                  λ guarded challenge e.
                                    let loads =
                                      at_stage-eq-ok given.host in_config _
                                        (load_config given.env lookup) loaded in
                                    let guards =
                                      at_stage-eq-ok given.host in_handler _ _ challenge in
                                    subst (IsReady given lookup) (ok_inj e) (record {
                                      config = config;
                                      loaded = loads;
                                      address =
                                          (listen_address_iff given.env lookup address).0
                                            (at_stage-eq-ok given.host in_config _ _ listens);
                                      registration_config = rc;
                                      configured =
                                          at_stage-eq-ok given.host in_config _ _ configured;
                                      readiness = registration.1;
                                      registers =
                                          at_stage-eq-ok given.host in_registration _ _ registers;
                                      registered_as =
                                          new_runtime_registration-IsRegistered given.host rc
                                            registration
                                            (at_stage-eq-ok given.host in_registration _ _
                                              registers);
                                      timeout = shutdown_timeout_of-positive rc;
                                      handler = handler;
                                      made = at_stage-eq-ok given.host in_handler _ _ made;
                                      served = served;
                                      built =
                                          ap
                                            (λ a.
                                              new_http_handler_with_auth_and_readiness given.web
                                                given.new_json_rpc (some handler) a
                                                (some registration.1))
                                            (same_authentication given.env lookup authentication
                                              config
                                              (at_stage-eq-ok given.host in_config _ _ secured)
                                              loads)
                                          ∙ at_stage-eq-ok given.host in_handler _ _ built;
                                      route = guarded.1;
                                      directory =
                                          guarded-Directory given lookup served guarded guards;
                                      composed =
                                          ap (λ a. application given.proofs (a, guarded.1))
                                            (passes_agent given.files lookup served guarded guards);
                                    })
