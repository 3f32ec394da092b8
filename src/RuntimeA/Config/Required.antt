-- ===== src/RuntimeA/Config/Required.antt =====
-- What LoadConfig of runtime-a/config.go asks of the environment, setting by setting.
use ne_kiro_samples.Base.{String, ◌≡◌, refl, ◌↔◌, some, ok, bind_then, guard_then, ◌≢◌}
use ne_kiro_samples.Settings.Valid.{IsText, IsName, IsLimit}
use ne_kiro_samples.RuntimeA.Config.{
  Config, Lookup, Environment, validate_required_value, validate_identifier_value,
  validate_router_url, validate_listen_address, within_limits, validate, load_config,
}
use ne_kiro_samples.RuntimeA.Config.Checks.{
  IsText-iff, name_safe, IsName-iff, IsAddress-iff, IsLimit-iff, IsOrigin, IsOrigin-iff,
  within_from,
}
use ne_kiro_samples.RuntimeA.Config.Bounds.{IsAddress, identifier_valid}
use ne_kiro_samples.RuntimeA.Config.Loaded.{Describes, load_config-Describes}

-- The environment holds each setting of the configuration under its name, and each is valid.
pub record IsProvided (env : Environment) (lookup : Lookup) (config : Config) : Type 0 where
  pub listen : lookup "RUNTIME_A_LISTEN_ADDR" ≡ some config.listen_address
  pub listen_text : IsText env config.listen_address
  pub address : IsAddress env config.listen_address
  pub port_given : address.port_text ≢ ""
  pub agent : lookup "RUNTIME_A_AGENT_ID" ≡ some config.agent_id
  pub agent_name : IsName env config.agent_id
  pub instance_id : lookup "RUNTIME_A_INSTANCE_ID" ≡ some config.instance_id
  pub instance_name : IsName env config.instance_id
  pub router : lookup "RUNTIME_A_ROUTER_URL" ≡ some config.router_url
  pub router_text : IsText env config.router_url
  pub router_origin : IsOrigin env config.router_url
  pub token : lookup "RUNTIME_A_ROUTER_TOKEN" ≡ some config.router_token
  pub token_text : IsText env config.router_token
  pub target : lookup "RUNTIME_A_TARGET_AGENT_ID" ≡ some config.target_agent_id
  pub target_name : IsName env config.target_agent_id
  pub capability : lookup "RUNTIME_A_TARGET_CAPABILITY" ≡ some config.capability
  pub capability_name : IsName env config.capability
  pub response : IsLimit env lookup "RUNTIME_A_RESPONSE_LIMIT_BYTES" config.response_limit
  pub event : IsLimit env lookup "RUNTIME_A_EVENT_LIMIT_BYTES" config.event_limit
  pub auth : env.load_router_auth lookup ≡ ok config.router_auth
  pub auth_valid : env.validate_router_auth config.router_auth ≡ ok tt

module _ (env : Environment) where
  named :
      (name value : String)
      → validate_required_value env name value ≡ ok tt
      → validate_identifier_value env name value ≡ ok tt
      → IsName env value
  named name value text safe = record {
    text = (IsText-iff env name value).0 text;
    safe = identifier_valid env name value safe;
  }

module _ (env : Environment) (lookup : Lookup) (config : Config) where
  settings_sound : Describes env lookup config → IsProvided env lookup config
  unfolding validate
  settings_sound d =
      bind_then (validate_required_value env "RUNTIME_A_LISTEN_ADDR" config.listen_address) _
        d.valid
        λ _ l e. bind_then (validate_listen_address env config.listen_address) _ e λ _ address e.
          bind_then (validate_required_value env "RUNTIME_A_AGENT_ID" config.agent_id) _ e λ _ a e.
            bind_then (validate_identifier_value env "RUNTIME_A_AGENT_ID" config.agent_id) _ e
              λ _ agent e.
                bind_then (validate_identifier_value env "RUNTIME_A_INSTANCE_ID" config.instance_id)
                  _ e
                  λ _ i e.
                    bind_then (validate_required_value env "RUNTIME_A_ROUTER_URL" config.router_url)
                      _ e
                      λ _ u e. bind_then (validate_router_url env config.router_url) _ e λ _ o e.
                        bind_then
                          (validate_required_value env "RUNTIME_A_ROUTER_TOKEN" config.router_token)
                          _ e
                          λ _ t e.
                            bind_then
                              (validate_required_value env "RUNTIME_A_TARGET_AGENT_ID"
                                config.target_agent_id)
                              _ e
                              λ _ g e.
                                bind_then
                                  (validate_identifier_value env "RUNTIME_A_TARGET_AGENT_ID"
                                    config.target_agent_id)
                                  _ e
                                  λ _ target e.
                                    bind_then
                                      (validate_required_value env "RUNTIME_A_TARGET_CAPABILITY"
                                        config.capability)
                                      _ e
                                      λ _ c e.
                                        bind_then
                                          (validate_identifier_value env
                                            "RUNTIME_A_TARGET_CAPABILITY" config.capability)
                                          _ e
                                          λ _ capability e.
                                            guard_then (within_limits env config.response_limit) _ _
                                              e
                                              λ _ e.
                                                guard_then (within_limits env config.event_limit) _
                                                  _ e
                                                  λ _ e.
                                                    let listen =
                                                      (IsAddress-iff env config.listen_address).0
                                                        address in
                                                    let inst =
                                                      (IsName-iff env lookup "RUNTIME_A_INSTANCE_ID"
                                                          config.instance_id).0
                                                        d.instance_name in
                                                    record {
                                                      listen = d.listen;
                                                      listen_text =
                                                          (IsText-iff env "RUNTIME_A_LISTEN_ADDR"
                                                            config.listen_address).0
                                                            l;
                                                      address = listen.0;
                                                      port_given = listen.1;
                                                      agent = d.agent;
                                                      agent_name =
                                                          named env "RUNTIME_A_AGENT_ID"
                                                            config.agent_id a agent;
                                                      instance_id = inst.0;
                                                      instance_name = inst.1;
                                                      router = d.router;
                                                      router_text =
                                                          (IsText-iff env "RUNTIME_A_ROUTER_URL"
                                                            config.router_url).0
                                                            u;
                                                      router_origin =
                                                          (IsOrigin-iff env config.router_url).0 o;
                                                      token = d.token;
                                                      token_text =
                                                          (IsText-iff env "RUNTIME_A_ROUTER_TOKEN"
                                                            config.router_token).0
                                                            t;
                                                      target = d.target;
                                                      target_name =
                                                          named env "RUNTIME_A_TARGET_AGENT_ID"
                                                            config.target_agent_id g target;
                                                      capability = d.capability;
                                                      capability_name =
                                                          named env "RUNTIME_A_TARGET_CAPABILITY"
                                                            config.capability c capability;
                                                      response =
                                                          (IsLimit-iff env lookup
                                                            "RUNTIME_A_RESPONSE_LIMIT_BYTES"
                                                            config.response_limit).0
                                                            d.response;
                                                      event =
                                                          (IsLimit-iff env lookup
                                                            "RUNTIME_A_EVENT_LIMIT_BYTES"
                                                            config.event_limit).0
                                                            d.event;
                                                      auth = d.auth;
                                                      auth_valid = e;
                                                    }

  settings_valid : IsProvided env lookup config → validate env config ≡ ok tt
  unfolding validate
  settings_valid s =
      rw
        (
          (IsText-iff env "RUNTIME_A_LISTEN_ADDR" config.listen_address).1 s.listen_text,
          (IsAddress-iff env config.listen_address).1 (s.address, s.port_given),
          (IsText-iff env "RUNTIME_A_AGENT_ID" config.agent_id).1 s.agent_name.text,
          name_safe env "RUNTIME_A_AGENT_ID" config.agent_id s.agent_name.safe,
          name_safe env "RUNTIME_A_INSTANCE_ID" config.instance_id s.instance_name.safe,
          (IsText-iff env "RUNTIME_A_ROUTER_URL" config.router_url).1 s.router_text,
          (IsOrigin-iff env config.router_url).1 s.router_origin,
          (IsText-iff env "RUNTIME_A_ROUTER_TOKEN" config.router_token).1 s.token_text,
          (IsText-iff env "RUNTIME_A_TARGET_AGENT_ID" config.target_agent_id).1 s.target_name.text,
          name_safe env "RUNTIME_A_TARGET_AGENT_ID" config.target_agent_id s.target_name.safe,
          (IsText-iff env "RUNTIME_A_TARGET_CAPABILITY" config.capability).1 s.capability_name.text,
          name_safe env "RUNTIME_A_TARGET_CAPABILITY" config.capability s.capability_name.safe,
        )
        (rw
          (
            within_from env config.response_limit s.response.from_minimum s.response.to_maximum,
            within_from env config.event_limit s.event.from_minimum s.event.to_maximum,
          )
          (rw s.auth_valid refl))

  settings_complete : IsProvided env lookup config → Describes env lookup config
  settings_complete s = record {
    listen = s.listen;
    agent = s.agent;
    instance_name =
        (IsName-iff env lookup "RUNTIME_A_INSTANCE_ID" config.instance_id).1
          (s.instance_id, s.instance_name);
    router = s.router;
    token = s.token;
    target = s.target;
    capability = s.capability;
    response =
        (IsLimit-iff env lookup "RUNTIME_A_RESPONSE_LIMIT_BYTES" config.response_limit).1
          s.response;
    event = (IsLimit-iff env lookup "RUNTIME_A_EVENT_LIMIT_BYTES" config.event_limit).1 s.event;
    auth = s.auth;
    valid = settings_valid s;
  }

  -- LoadConfig returns a configuration exactly when the environment holds each of its settings under
  -- its name, the instance id RUNTIME_A_INSTANCE_ID included, and each is valid: the listen address is
  -- a host and a port from 1 through 65535, the ids and the capability are safe identifiers, the
  -- Router's URL is an http or https origin, no text is empty or has white space around it, the limits
  -- are written in digits and lie in the platform's range, and the router authentication loads and is
  -- valid.
  pub load_settings_iff : (load_config env lookup ≡ ok config) ↔ IsProvided env lookup config
  load_settings_iff =
      let (read, back) = load_config-Describes env lookup config in
      (λ e. settings_sound (read e), λ s. back (settings_complete s))
