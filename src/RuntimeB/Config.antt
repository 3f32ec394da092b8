-- ===== src/RuntimeB/Config.antt =====
-- runtime-b/config.go: the settings of Runtime B, read from the environment and validated. A limit
-- is a number from 0: a negative one, which no text of digits gives, is left out.
pub mod Loaded
pub mod Checks
pub mod Required
use ne_kiro_samples.Base.{
  String, ℕ, Bool, true, false, not, ◌&&◌, ◌||◌, ◌==◌, Option, none, some, leb, Outcome, ok, err,
  Error, plain, guard, or_fail, ◌>>=◌, ◌>>◌, if◌then◌else◌,
}
use Prim.Native.Char.{Char, code}
use Prim.Native.String.{[], ◌∷◌, ◌++◌, count}
use ne_kiro_samples.Identifier.{is_digit, all_characters, is_identifier}
use ne_kiro_samples.Platform.{RouterAuth}
pub use ne_kiro_samples.Settings.{Lookup, Environment, Url}

pub record Config : Type 0 where
  pub agent_id : String
  pub instance_id : String
  pub router_url : String
  pub router_token : String
  pub target_agent_id : String
  pub capability : String
  pub response_limit : ℕ
  pub event_limit : ℕ
  pub router_auth : RouterAuth

module _ (env : Environment) where
  unfoldable pub validate_required_value : (name value : String) → Outcome (Unit {0})
  validate_required_value name value = do
    guard (not (value == "")) (plain (name ++ " must be non-empty"))
    guard (env.trim_space value == value)
        (plain (name ++ " must not contain surrounding whitespace"))

  unfoldable pub validate_identifier_value : (name value : String) → Outcome (Unit {0})
  unfolding is_identifier
  validate_identifier_value name value = do
    validate_required_value name value
    guard (is_identifier value) (plain (name ++ " must be a safe identifier"))

  unfoldable pub required_value : Lookup → String → Outcome String
  required_value lookup name = do
    value ← or_fail (lookup name) (plain (name ++ " is required"))
    validate_required_value name value
    ok value

  unfoldable pub required_identifier : Lookup → String → Outcome String
  required_identifier lookup name = do
    value ← required_value lookup name
    validate_identifier_value name value
    ok value

  abbrev limit_error : String → Error
  limit_error name = plain (
      name
      ++ (" must be an integer from "
          ++ (env.format_int env.limit_minimum
              ++ (" through " ++ env.format_int env.limit_maximum))))

  abbrev pub within_limits : ℕ → Bool
  within_limits n = leb env.limit_minimum n && leb n env.limit_maximum

  unfoldable pub required_limit : Lookup → String → Outcome ℕ
  required_limit lookup name = do
    value ← required_value lookup name
    guard (all_characters is_digit value) (plain (name ++ " must be an unsigned base-10 integer"))
    parsed ← or_fail (env.parse_int value) (limit_error name)
    guard (within_limits parsed) (limit_error name)
    ok parsed

  abbrev pub is_origin : String → Url → Bool
  is_origin value u =
      (u.scheme == "http" || u.scheme == "https")
      && (not (u.host == "")
          && (not (env.has_suffix u.host ":")
              && (not u.has_user
                  && (u.path == ""
                      && (u.raw_path == ""
                          && (u.raw_query == ""
                              && (not u.force_query
                                  && (not (env.contains value "#")
                                      && (u.fragment == "" && u.raw_fragment == "")))))))))

  abbrev pub is_port : Option ℕ → Bool
  is_port none = false
  is_port (some n) = leb 1 n && leb n 65535

  unfoldable pub validate_router_url : String → Outcome (Unit {0})
  validate_router_url value = do
    u ← or_fail (env.parse_url value) (
        plain
          "RUNTIME_B_ROUTER_URL must be an http or https origin URL without credentials, path, query, or fragment")
    guard (is_origin value u) (
        plain
          "RUNTIME_B_ROUTER_URL must be an http or https origin URL without credentials, path, query, or fragment")
    guard (u.port == "" || is_port (env.parse_int u.port))
        (plain "RUNTIME_B_ROUTER_URL port must be an integer from 1 through 65535")
    guard (not (u.host_name == "")) (plain "RUNTIME_B_ROUTER_URL must declare a host")

  -- Config.Validate
  unfoldable pub validate : Config → Outcome (Unit {0})
  validate config = do
    validate_identifier_value "RUNTIME_B_AGENT_ID" config.agent_id
    validate_identifier_value "RUNTIME_B_INSTANCE_ID" config.instance_id
    validate_required_value "RUNTIME_B_ROUTER_URL" config.router_url
    validate_router_url config.router_url
    validate_required_value "RUNTIME_B_ROUTER_TOKEN" config.router_token
    validate_identifier_value "RUNTIME_B_TARGET_AGENT_ID" config.target_agent_id
    validate_identifier_value "RUNTIME_B_TARGET_CAPABILITY" config.capability
    guard (within_limits config.response_limit) (limit_error "RUNTIME_B_RESPONSE_LIMIT_BYTES")
    guard (within_limits config.event_limit) (limit_error "RUNTIME_B_EVENT_LIMIT_BYTES")
    env.validate_router_auth config.router_auth

  unfoldable pub load_config : Lookup → Outcome Config
  load_config lookup = do
    agent_id ← required_identifier lookup "RUNTIME_B_AGENT_ID"
    instance_id ← required_identifier lookup "RUNTIME_B_INSTANCE_ID"
    router_url ← required_value lookup "RUNTIME_B_ROUTER_URL"
    validate_router_url router_url
    router_token ← required_value lookup "RUNTIME_B_ROUTER_TOKEN"
    target_agent_id ← required_identifier lookup "RUNTIME_B_TARGET_AGENT_ID"
    capability ← required_identifier lookup "RUNTIME_B_TARGET_CAPABILITY"
    response_limit ← required_limit lookup "RUNTIME_B_RESPONSE_LIMIT_BYTES"
    event_limit ← required_limit lookup "RUNTIME_B_EVENT_LIMIT_BYTES"
    router_auth ← env.load_router_auth lookup
    let config : Config = record {
      agent_id = agent_id;
      instance_id = instance_id;
      router_url = router_url;
      router_token = router_token;
      target_agent_id = target_agent_id;
      capability = capability;
      response_limit = response_limit;
      event_limit = event_limit;
      router_auth = router_auth;
    } in
        validate config >> ok config
