-- ===== src/RuntimeA/Config/Bounds.antt =====
-- The ranges of a loaded configuration: its port, its limits and its identifiers.
use ne_kiro_samples.Base.{
  String, ℕ, ◌≡◌, ◌≢◌, ◌≤◌, ◌==◌, not, some, true, Outcome, ok, err, panic, bind_then, arith,
  eq_iff, or_fail-eq-ok, guard-eq-ok, guard_then,
}
use ne_kiro_samples.Identifier.{is_identifier, all_characters, is_digit}
use ne_kiro_samples.RuntimeA.Config.{
  Config, Lookup, Environment, validate_required_value, validate_identifier_value,
  validate_listen_address, validate_router_url, validate, load_config, parse_port, is_port,
  host_port, port_of_address, within_limits,
}
use ne_kiro_samples.RuntimeA.Config.Loaded.{load_config-Describes}

-- An address of a host and a port in digits, from 1 through 65535.
pub record IsAddress (env : Environment) (address : String) : Type 0 where
  pub host : String
  pub port_text : String
  pub port : ℕ
  pub parts : env.split_host_port address ≡ ok (host, port_text)
  pub named : host ≢ ""
  pub digits : all_characters is_digit port_text ≡ true
  pub parsed : env.parse_int port_text ≡ some port
  pub from_one : 1 ≤ port
  pub in_range : port ≤ 65535

pub record IsBounded (env : Environment) (config : Config) : Type 0 where
  pub address : IsAddress env config.listen_address
  pub agent : is_identifier config.agent_id ≡ true
  pub instance_name : is_identifier config.instance_id ≡ true
  pub target : is_identifier config.target_agent_id ≡ true
  pub capability : is_identifier config.capability ≡ true
  pub response_from : env.limit_minimum ≤ config.response_limit
  pub response_to : config.response_limit ≤ env.limit_maximum
  pub event_from : env.limit_minimum ≤ config.event_limit
  pub event_to : config.event_limit ≤ env.limit_maximum

pub host_port-eq-ok :
    (o : Outcome (String × String)) {parts : String × String}
    → host_port o ≡ ok parts
    → (o ≡ ok parts) × (parts.0 ≢ "")
host_port-eq-ok (ok (host, text)) e = ground (arith, eq_iff host "")
host_port-eq-ok (err x) e = cc
host_port-eq-ok (panic m) e = cc

pub port_of_address-eq-ok : (o : Outcome ℕ) {port : ℕ} → port_of_address o ≡ ok port → o ≡ ok port
port_of_address-eq-ok (ok p) e = e
port_of_address-eq-ok (err x) e = cc
port_of_address-eq-ok (panic m) e = cc

module _ (env : Environment) where
  pub parse_port-eq-ok :
      (text : String) {port : ℕ}
      → parse_port env text ≡ ok port
      → (all_characters is_digit text ≡ true) × (env.parse_int text ≡ some port)
  unfolding parse_port
  parse_port-eq-ok text e = guard_then (not (text == "")) _ _ e λ filled e.
      guard_then (all_characters is_digit text) _ _ e
        λ digits e. (digits, or_fail-eq-ok (env.parse_int text) _ e)

  pub is_port-bounds : (n : ℕ) → is_port n ≡ true → (1 ≤ n) × (n ≤ 65535)
  is_port-bounds n e = ground arith

  pub validate_listen_address-IsAddress :
      (address : String) → validate_listen_address env address ≡ ok tt → IsAddress env address
  unfolding validate_listen_address
  validate_listen_address-IsAddress address e =
      bind_then (host_port (env.split_host_port address)) _ e λ parts split e.
        bind_then (port_of_address (parse_port env parts.1)) _ e λ port read e.
          let (there, named) = host_port-eq-ok (env.split_host_port address) split in
          let (digits, parsed) =
            parse_port-eq-ok parts.1 (port_of_address-eq-ok (parse_port env parts.1) read) in
          let (low, high) = is_port-bounds port (guard-eq-ok (is_port port) _ e) in
          record {
            host = parts.0;
            port_text = parts.1;
            port = port;
            parts = there;
            named = named;
            digits = digits;
            parsed = parsed;
            from_one = low;
            in_range = high;
          }

  pub identifier_valid :
      (name value : String)
      → validate_identifier_value env name value ≡ ok tt
      → is_identifier value ≡ true
  unfolding validate_identifier_value
  identifier_valid name value e = guard-eq-ok (is_identifier value) _ e

  pub within :
      (n : ℕ) → within_limits env n ≡ true → (env.limit_minimum ≤ n) × (n ≤ env.limit_maximum)
  within n e = ground arith

  validate-IsBounded : (config : Config) → validate env config ≡ ok tt → IsBounded env config
  unfolding validate
  validate-IsBounded config e =
      bind_then (validate_required_value env "RUNTIME_A_LISTEN_ADDR" config.listen_address) _ e
        λ _ l e. bind_then (validate_listen_address env config.listen_address) _ e λ _ address e.
          bind_then (validate_required_value env "RUNTIME_A_AGENT_ID" config.agent_id) _ e λ _ a e.
            bind_then (validate_identifier_value env "RUNTIME_A_AGENT_ID" config.agent_id) _ e
              λ _ agent e.
                bind_then (validate_identifier_value env "RUNTIME_A_INSTANCE_ID" config.instance_id)
                  _ e
                  λ _ inst e.
                    bind_then (validate_required_value env "RUNTIME_A_ROUTER_URL" config.router_url)
                      _ e
                      λ _ u e.
                        bind_then (validate_router_url env config.router_url) _ e λ _ origin e.
                          bind_then
                            (validate_required_value env "RUNTIME_A_ROUTER_TOKEN"
                              config.router_token)
                            _ e
                            λ _ t e.
                              bind_then
                                (validate_required_value env "RUNTIME_A_TARGET_AGENT_ID"
                                  config.target_agent_id)
                                _ e
                                λ _ g e.
                                  bind_then
                                    (validate_identifier_value env "RUNTIME_A_TARGET_AGENT_ID"
                                      config.target_agent_id)
                                    _ e
                                    λ _ target e.
                                      bind_then
                                        (validate_required_value env "RUNTIME_A_TARGET_CAPABILITY"
                                          config.capability)
                                        _ e
                                        λ _ c e.
                                          bind_then
                                            (validate_identifier_value env
                                              "RUNTIME_A_TARGET_CAPABILITY" config.capability)
                                            _ e
                                            λ _ capability e.
                                              guard_then (within_limits env config.response_limit) _
                                                _ e
                                                λ response e.
                                                  guard_then (within_limits env config.event_limit)
                                                    _ _ e
                                                    λ event e.
                                                      let (response_from, response_to) =
                                                        within config.response_limit response in
                                                      let (event_from, event_to) =
                                                        within config.event_limit event in
                                                      record {
                                                        address =
                                                            validate_listen_address-IsAddress
                                                            config.listen_address address;
                                                        agent =
                                                            identifier_valid "RUNTIME_A_AGENT_ID"
                                                            config.agent_id agent;
                                                        instance_name =
                                                            identifier_valid "RUNTIME_A_INSTANCE_ID"
                                                            config.instance_id inst;
                                                        target =
                                                            identifier_valid
                                                            "RUNTIME_A_TARGET_AGENT_ID"
                                                            config.target_agent_id target;
                                                        capability =
                                                            identifier_valid
                                                            "RUNTIME_A_TARGET_CAPABILITY"
                                                            config.capability capability;
                                                        response_from = response_from;
                                                        response_to = response_to;
                                                        event_from = event_from;
                                                        event_to = event_to;
                                                      }

pub load_config-IsBounded :
    (env : Environment) (lookup : Lookup) (config : Config)
    → load_config env lookup ≡ ok config
    → IsBounded env config
load_config-IsBounded env lookup config e =
    validate-IsBounded env config ((load_config-Describes env lookup config).0 e).valid
