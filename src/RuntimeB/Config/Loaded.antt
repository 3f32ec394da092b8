-- ===== src/RuntimeB/Config/Loaded.antt =====
-- What a loaded configuration holds: the settings of the environment, valid.
use ne_kiro_samples.Base.{
  String, ◌≡◌, refl, ap, ◌∙◌, ◌↔◌, some, Outcome, ok, bind_then, or_fail_then, subst,
}
use ne_kiro_samples.RuntimeB.Config.{
  Config, Lookup, Environment, validate_required_value, validate_identifier_value, required_value,
  required_identifier, required_limit, validate_router_url, validate, load_config,
}

-- The settings of `config` stand in the environment under their names, and are valid.
pub record Describes (env : Environment) (lookup : Lookup) (config : Config) : Type 0 where
  pub agent : lookup "RUNTIME_B_AGENT_ID" ≡ some config.agent_id
  pub instance_name : lookup "RUNTIME_B_INSTANCE_ID" ≡ some config.instance_id
  pub router : lookup "RUNTIME_B_ROUTER_URL" ≡ some config.router_url
  pub token : lookup "RUNTIME_B_ROUTER_TOKEN" ≡ some config.router_token
  pub target : lookup "RUNTIME_B_TARGET_AGENT_ID" ≡ some config.target_agent_id
  pub capability : lookup "RUNTIME_B_TARGET_CAPABILITY" ≡ some config.capability
  pub response :
      required_limit env lookup "RUNTIME_B_RESPONSE_LIMIT_BYTES" ≡ ok config.response_limit
  pub event : required_limit env lookup "RUNTIME_B_EVENT_LIMIT_BYTES" ≡ ok config.event_limit
  pub auth : env.load_router_auth lookup ≡ ok config.router_auth
  pub valid : validate env config ≡ ok tt

module _ (env : Environment) (lookup : Lookup) where
  same_value : (a b : String) → ◌≡◌ {A = Outcome String} (ok a) (ok b) → a ≡ b
  same_value a b e = cc

  required_value-given :
      (name : String) {value : String}
      → required_value env lookup name ≡ ok value
      → lookup name ≡ some value
  unfolding required_value
  required_value-given name {value} e = or_fail_then (lookup name) _ _ e λ found there e.
      bind_then (validate_required_value env name found) _ e
        λ u checked e. there ∙ ap some (same_value found value e)

  required_identifier-given :
      (name : String) {value : String}
      → required_identifier env lookup name ≡ ok value
      → lookup name ≡ some value
  unfolding required_identifier
  required_identifier-given name {value} e =
      bind_then (required_value env lookup name) _ e λ found there e.
        bind_then (validate_identifier_value env name found) _ e
          λ u checked e. required_value-given name there ∙ ap some (same_value found value e)

  required_value_valid :
      (name value : String)
      → lookup name ≡ some value
      → validate_required_value env name value ≡ ok tt
      → required_value env lookup name ≡ ok value
  unfolding required_value
  required_value_valid name value there checked = rw (there, checked) refl

  validate_identifier_value-required :
      (name value : String)
      → validate_identifier_value env name value ≡ ok tt
      → validate_required_value env name value ≡ ok tt
  unfolding validate_identifier_value
  validate_identifier_value-required name value e =
      bind_then {R = validate_required_value env name value ≡ ok tt}
        (validate_required_value env name value) _ e λ u first e. first

  required_identifier_valid :
      (name value : String)
      → lookup name ≡ some value
      → validate_identifier_value env name value ≡ ok tt
      → required_identifier env lookup name ≡ ok value
  unfolding required_identifier
  required_identifier_valid name value there checked =
      rw
        (required_value_valid name value there
          (validate_identifier_value-required name value checked))
        (rw checked refl)

  same_config : (a b : Config) → ◌≡◌ {A = Outcome Config} (ok a) (ok b) → a ≡ b
  same_config a b e = cc

  load_config_sound :
      (config : Config) → load_config env lookup ≡ ok config → Describes env lookup config
  unfolding load_config
  load_config_sound config e =
      bind_then (required_identifier env lookup "RUNTIME_B_AGENT_ID") _ e λ agent a e.
        bind_then (required_identifier env lookup "RUNTIME_B_INSTANCE_ID") _ e λ inst i e.
          bind_then (required_value env lookup "RUNTIME_B_ROUTER_URL") _ e λ url u e.
            bind_then (validate_router_url env url) _ e λ _ checked e.
              bind_then (required_value env lookup "RUNTIME_B_ROUTER_TOKEN") _ e λ token t e.
                bind_then (required_identifier env lookup "RUNTIME_B_TARGET_AGENT_ID") _ e
                  λ target g e.
                    bind_then (required_identifier env lookup "RUNTIME_B_TARGET_CAPABILITY") _ e
                      λ cap c e.
                        bind_then (required_limit env lookup "RUNTIME_B_RESPONSE_LIMIT_BYTES") _ e
                          λ response r e.
                            bind_then (required_limit env lookup "RUNTIME_B_EVENT_LIMIT_BYTES") _ e
                              λ event v e. bind_then (env.load_router_auth lookup) _ e λ auth h e.
                                let loaded : Config = record {
                                  agent_id = agent;
                                  instance_id = inst;
                                  router_url = url;
                                  router_token = token;
                                  target_agent_id = target;
                                  capability = cap;
                                  response_limit = response;
                                  event_limit = event;
                                  router_auth = auth;
                                } in
                                bind_then (validate env loaded) _ e λ _ valid e.
                                  subst (Describes env lookup) (same_config loaded config e)
                                    (record {
                                      agent = required_identifier-given "RUNTIME_B_AGENT_ID" a;
                                      instance_name =
                                          required_identifier-given "RUNTIME_B_INSTANCE_ID" i;
                                      router = required_value-given "RUNTIME_B_ROUTER_URL" u;
                                      token = required_value-given "RUNTIME_B_ROUTER_TOKEN" t;
                                      target =
                                          required_identifier-given "RUNTIME_B_TARGET_AGENT_ID" g;
                                      capability =
                                          required_identifier-given "RUNTIME_B_TARGET_CAPABILITY" c;
                                      response = r;
                                      event = v;
                                      auth = h;
                                      valid = valid;
                                    })

  module _ (config : Config) (d : Describes env lookup config) where
    load_config_from :
        validate_identifier_value env "RUNTIME_B_AGENT_ID" config.agent_id ≡ ok tt
        → validate_identifier_value env "RUNTIME_B_INSTANCE_ID" config.instance_id ≡ ok tt
        → validate_required_value env "RUNTIME_B_ROUTER_URL" config.router_url ≡ ok tt
        → validate_router_url env config.router_url ≡ ok tt
        → validate_required_value env "RUNTIME_B_ROUTER_TOKEN" config.router_token ≡ ok tt
        → validate_identifier_value env "RUNTIME_B_TARGET_AGENT_ID" config.target_agent_id ≡ ok tt
        → validate_identifier_value env "RUNTIME_B_TARGET_CAPABILITY" config.capability ≡ ok tt
        → load_config env lookup ≡ ok config
    unfolding load_config
    load_config_from a i u checked t g c =
        rw
          (
            required_identifier_valid "RUNTIME_B_AGENT_ID" config.agent_id d.agent a,
            required_identifier_valid "RUNTIME_B_INSTANCE_ID" config.instance_id d.instance_name i,
            required_value_valid "RUNTIME_B_ROUTER_URL" config.router_url d.router u,
            checked,
            required_value_valid "RUNTIME_B_ROUTER_TOKEN" config.router_token d.token t,
            required_identifier_valid "RUNTIME_B_TARGET_AGENT_ID" config.target_agent_id d.target g,
            required_identifier_valid "RUNTIME_B_TARGET_CAPABILITY" config.capability d.capability
                c,
          )
          (rw (d.response, d.event, d.auth) (rw d.valid refl))

    load_config_complete : load_config env lookup ≡ ok config
    unfolding validate
    load_config_complete =
        bind_then (validate_identifier_value env "RUNTIME_B_AGENT_ID" config.agent_id) _ d.valid
          λ _ a e.
            bind_then (validate_identifier_value env "RUNTIME_B_INSTANCE_ID" config.instance_id) _ e
              λ _ i e.
                bind_then (validate_required_value env "RUNTIME_B_ROUTER_URL" config.router_url) _ e
                  λ _ u e. bind_then (validate_router_url env config.router_url) _ e λ _ checked e.
                    bind_then
                      (validate_required_value env "RUNTIME_B_ROUTER_TOKEN" config.router_token) _ e
                      λ _ t e.
                        bind_then
                          (validate_identifier_value env "RUNTIME_B_TARGET_AGENT_ID"
                            config.target_agent_id)
                          _ e
                          λ _ g e.
                            bind_then
                              (validate_identifier_value env "RUNTIME_B_TARGET_CAPABILITY"
                                config.capability)
                              _ e λ _ c e. load_config_from a i u checked t g c

  pub load_config-Describes :
      (config : Config) → (load_config env lookup ≡ ok config) ↔ Describes env lookup config
  load_config-Describes config = (load_config_sound config, load_config_complete config)
