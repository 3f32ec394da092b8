-- ===== src/RuntimeA/Config/Loaded.antt =====
-- What a loaded configuration holds: the settings of the environment, valid and within bounds.
use ne_kiro_samples.Base.{
  String, ◌≡◌, refl, ◌↔◌, some, Outcome, ok, err, panic, bind_then, subst, ◌>>=◌, checked-eq-ok,
  checked_ok, or_fail-eq-ok, plain, or_fail,
}
use ne_kiro_samples.RuntimeA.Config.{
  Config, Lookup, Environment, validate_required_value, validate_identifier_value, required_value,
  required_identifier, required_limit, validate_listen_address, validate_router_url, validate,
  load_config,
}

-- The settings of `config` stand in the environment under their names, and are valid.
pub record Describes (env : Environment) (lookup : Lookup) (config : Config) : Type 0 where
  pub listen : lookup "RUNTIME_A_LISTEN_ADDR" ≡ some config.listen_address
  pub agent : lookup "RUNTIME_A_AGENT_ID" ≡ some config.agent_id
  pub instance_name : required_identifier env lookup "RUNTIME_A_INSTANCE_ID" ≡ ok config.instance_id
  pub router : lookup "RUNTIME_A_ROUTER_URL" ≡ some config.router_url
  pub token : lookup "RUNTIME_A_ROUTER_TOKEN" ≡ some config.router_token
  pub target : lookup "RUNTIME_A_TARGET_AGENT_ID" ≡ some config.target_agent_id
  pub capability : lookup "RUNTIME_A_TARGET_CAPABILITY" ≡ some config.capability
  pub response :
      required_limit env lookup "RUNTIME_A_RESPONSE_LIMIT_BYTES" ≡ ok config.response_limit
  pub event : required_limit env lookup "RUNTIME_A_EVENT_LIMIT_BYTES" ≡ ok config.event_limit
  pub auth : env.load_router_auth lookup ≡ ok config.router_auth
  pub valid : validate env config ≡ ok tt

module _ (env : Environment) (lookup : Lookup) where
  pub required_value-eq-ok :
      (name : String) {value : String}
      → required_value env lookup name ≡ ok value
      → (lookup name ≡ some value) × (validate_required_value env name value ≡ ok tt)
  unfolding required_value
  required_value-eq-ok name e =
      let (read, valid) =
        checked-eq-ok (or_fail (lookup name) (plain _)) (validate_required_value env name) e in
      (or_fail-eq-ok (lookup name) (plain _) read, valid)

  required_value_valid :
      (name value : String)
      → lookup name ≡ some value
      → validate_required_value env name value ≡ ok tt
      → required_value env lookup name ≡ ok value
  unfolding required_value
  required_value_valid name value there valid = rw (there, valid) refl

  required_identifier-eq-ok :
      (name : String) {value : String}
      → required_identifier env lookup name ≡ ok value
      → lookup name ≡ some value
  unfolding required_identifier
  required_identifier-eq-ok name e =
      (required_value-eq-ok name
        (checked-eq-ok (required_value env lookup name) (validate_identifier_value env name) e).0).0

  pub required_identifier_valid :
      (name value : String)
      → lookup name ≡ some value
      → validate_required_value env name value ≡ ok tt
      → validate_identifier_value env name value ≡ ok tt
      → required_identifier env lookup name ≡ ok value
  unfolding required_identifier
  required_identifier_valid name value there filled valid =
      checked_ok (required_value env lookup name) (validate_identifier_value env name)
        (required_value_valid name value there filled) valid

  load_config_sound :
      (config : Config) → load_config env lookup ≡ ok config → Describes env lookup config
  unfolding load_config
  load_config_sound config e =
      bind_then (required_value env lookup "RUNTIME_A_LISTEN_ADDR") _ e λ listen l e.
        bind_then (validate_listen_address env listen) _ e λ _ address e.
          bind_then (required_identifier env lookup "RUNTIME_A_AGENT_ID") _ e λ agent a e.
            bind_then (required_identifier env lookup "RUNTIME_A_INSTANCE_ID") _ e λ inst i e.
              bind_then (required_value env lookup "RUNTIME_A_ROUTER_URL") _ e λ url u e.
                bind_then (validate_router_url env url) _ e λ _ origin e.
                  bind_then (required_value env lookup "RUNTIME_A_ROUTER_TOKEN") _ e λ token t e.
                    bind_then (required_identifier env lookup "RUNTIME_A_TARGET_AGENT_ID") _ e
                      λ target g e.
                        bind_then (required_identifier env lookup "RUNTIME_A_TARGET_CAPABILITY") _ e
                          λ cap c e.
                            bind_then (required_limit env lookup "RUNTIME_A_RESPONSE_LIMIT_BYTES") _
                              e
                              λ response r e.
                                bind_then (required_limit env lookup "RUNTIME_A_EVENT_LIMIT_BYTES")
                                  _ e
                                  λ event v e.
                                    bind_then (env.load_router_auth lookup) _ e λ auth h e.
                                      let (valid, same) =
                                        validated_same _ (validate env _) config e in
                                      subst (Describes env lookup) same (record {
                                        listen = (required_value-eq-ok "RUNTIME_A_LISTEN_ADDR" l).0;
                                        agent = required_identifier-eq-ok "RUNTIME_A_AGENT_ID" a;
                                        instance_name = i;
                                        router = (required_value-eq-ok "RUNTIME_A_ROUTER_URL" u).0;
                                        token = (required_value-eq-ok "RUNTIME_A_ROUTER_TOKEN" t).0;
                                        target =
                                            required_identifier-eq-ok "RUNTIME_A_TARGET_AGENT_ID" g;
                                        capability =
                                            required_identifier-eq-ok "RUNTIME_A_TARGET_CAPABILITY"
                                              c;
                                        response = r;
                                        event = v;
                                        auth = h;
                                        valid = valid;
                                      })
    where
      validated_same :
          (loaded : Config) (test : Outcome (Unit {0})) (config : Config)
          → test >>= (λ _. ok loaded) ≡ ok config
          → (test ≡ ok tt) × (loaded ≡ config)
      validated_same loaded (ok tt) config e = (refl, cc)
      validated_same loaded (err x) config e = cc
      validated_same loaded (panic m) config e = cc

  module _ (config : Config) (d : Describes env lookup config) where
    load_config_from :
        validate_required_value env "RUNTIME_A_LISTEN_ADDR" config.listen_address ≡ ok tt
        → validate_listen_address env config.listen_address ≡ ok tt
        → validate_required_value env "RUNTIME_A_AGENT_ID" config.agent_id ≡ ok tt
        → validate_identifier_value env "RUNTIME_A_AGENT_ID" config.agent_id ≡ ok tt
        → validate_required_value env "RUNTIME_A_ROUTER_URL" config.router_url ≡ ok tt
        → validate_router_url env config.router_url ≡ ok tt
        → validate_required_value env "RUNTIME_A_ROUTER_TOKEN" config.router_token ≡ ok tt
        → validate_required_value env "RUNTIME_A_TARGET_AGENT_ID" config.target_agent_id ≡ ok tt
        → validate_identifier_value env "RUNTIME_A_TARGET_AGENT_ID" config.target_agent_id ≡ ok tt
        → validate_required_value env "RUNTIME_A_TARGET_CAPABILITY" config.capability ≡ ok tt
        → validate_identifier_value env "RUNTIME_A_TARGET_CAPABILITY" config.capability ≡ ok tt
        → load_config env lookup ≡ ok config
    unfolding load_config
    load_config_from l address a agent u origin t g target c capability =
        rw
          (
            required_value_valid "RUNTIME_A_LISTEN_ADDR" config.listen_address d.listen l,
            address,
            required_identifier_valid "RUNTIME_A_AGENT_ID" config.agent_id d.agent a agent,
            d.instance_name,
            required_value_valid "RUNTIME_A_ROUTER_URL" config.router_url d.router u,
            origin,
            required_value_valid "RUNTIME_A_ROUTER_TOKEN" config.router_token d.token t,
            required_identifier_valid "RUNTIME_A_TARGET_AGENT_ID" config.target_agent_id d.target g
                target,
            required_identifier_valid "RUNTIME_A_TARGET_CAPABILITY" config.capability d.capability c
                capability,
          )
          (rw (d.response, d.event, d.auth) (rw d.valid refl))

    load_config_complete : load_config env lookup ≡ ok config
    unfolding validate
    load_config_complete =
        bind_then (validate_required_value env "RUNTIME_A_LISTEN_ADDR" config.listen_address) _
          d.valid
          λ _ l e. bind_then (validate_listen_address env config.listen_address) _ e λ _ address e.
            bind_then (validate_required_value env "RUNTIME_A_AGENT_ID" config.agent_id) _ e
              λ _ a e.
                bind_then (validate_identifier_value env "RUNTIME_A_AGENT_ID" config.agent_id) _ e
                  λ _ agent e.
                    bind_then
                      (validate_identifier_value env "RUNTIME_A_INSTANCE_ID" config.instance_id) _ e
                      λ _ i e.
                        bind_then
                          (validate_required_value env "RUNTIME_A_ROUTER_URL" config.router_url) _ e
                          λ _ u e.
                            bind_then (validate_router_url env config.router_url) _ e λ _ origin e.
                              bind_then
                                (validate_required_value env "RUNTIME_A_ROUTER_TOKEN"
                                  config.router_token)
                                _ e
                                λ _ t e.
                                  bind_then
                                    (validate_required_value env "RUNTIME_A_TARGET_AGENT_ID"
                                      config.target_agent_id)
                                    _ e
                                    λ _ g e.
                                      bind_then
                                        (validate_identifier_value env "RUNTIME_A_TARGET_AGENT_ID"
                                          config.target_agent_id)
                                        _ e
                                        λ _ target e.
                                          bind_then
                                            (validate_required_value env
                                              "RUNTIME_A_TARGET_CAPABILITY" config.capability)
                                            _ e
                                            λ _ c e.
                                              bind_then
                                                (validate_identifier_value env
                                                  "RUNTIME_A_TARGET_CAPABILITY" config.capability)
                                                _ e
                                                λ _ capability e.
                                                  load_config_from l address a agent u origin t g
                                                    target c capability

  pub load_config-Describes :
      (config : Config) → (load_config env lookup ≡ ok config) ↔ Describes env lookup config
  load_config-Describes config = (load_config_sound config, load_config_complete config)
