-- ===== src/Settings.antt =====
-- What both runtimes read their settings with: the environment and the functions of other packages.
pub mod Examples
pub mod Valid
use ne_kiro_samples.Base.{String, ℕ, Bool, Option, Outcome}
use ne_kiro_samples.Platform.{RouterAuth}

-- What url.Parse gives of a URL; a `user` of any kind is `has_user`.
pub record Url : Type 0 where
  pub scheme : String
  pub host : String
  pub host_name : String
  pub port : String
  pub has_user : Bool
  pub path : String
  pub raw_path : String
  pub raw_query : String
  pub force_query : Bool
  pub fragment : String
  pub raw_fragment : String

-- os.LookupEnv
abbrev pub Lookup : Type 0
Lookup = String → Option String

-- The functions and constants of other packages that the settings are read with: strings.TrimSpace,
-- HasSuffix and Contains, url.Parse, strconv.ParseInt and Atoi (`none` is an error, or a number below
-- 0), %d of a number from 0, net.SplitHostPort, the limits of the contracts package, and LoadConfig
-- and Validate of the routerauth package.
pub record Environment : Type 0 where
  pub trim_space : String → String
  pub has_suffix : (value suffix : String) → Bool
  pub contains : (value part : String) → Bool
  pub parse_url : String → Option Url
  pub parse_int : String → Option ℕ
  pub format_int : ℕ → String
  pub split_host_port : String → Outcome (String × String)
  pub limit_minimum : ℕ
  pub limit_maximum : ℕ
  pub load_router_auth : Lookup → Outcome RouterAuth
  pub validate_router_auth : RouterAuth → Outcome (Unit {0})
