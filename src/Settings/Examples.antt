-- ===== src/Settings/Examples.antt =====
-- Concrete functions of other packages for the tests of the settings.
use ne_kiro_samples.Base.{false, ◌==◌, if◌then◌else◌, none, some, ok, err, plain}
use ne_kiro_samples.Platform.{router_auth}
use ne_kiro_samples.Settings.{Environment, Url}

abbrev test_url : Url
test_url = record {
  scheme = "http";
  host = "h";
  host_name = "h";
  port = "";
  has_user = false;
  path = "";
  raw_path = "";
  raw_query = "";
  force_query = false;
  fragment = "";
  raw_fragment = "";
}

abbrev pub test_environment : Environment
test_environment = record {
  trim_space = λ s. s;
  has_suffix = λ s t. false;
  contains = λ s t. false;
  parse_url = λ s. some test_url;
  parse_int = λ s. if s == "1" then some 1 else none;
  format_int = λ n. "n";
  split_host_port =
      λ s. if s == "h:1" then ok ("h", "1") else err (plain "missing port in address");
  limit_minimum = 1;
  limit_maximum = 9;
  load_router_auth = λ lookup. ok (router_auth 0);
  validate_router_auth = λ auth. ok tt;
}
