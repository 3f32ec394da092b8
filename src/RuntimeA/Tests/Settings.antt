-- ===== src/RuntimeA/Tests/Settings.antt =====
-- The settings of a test environment.
use ne_kiro_samples.Base.{◌≡◌, ◌↔◌, ◌==◌, if◌then◌else◌, refl, none, some, ok, err, plain}
use ne_kiro_samples.Settings.Examples.{test_environment}
use ne_kiro_samples.RuntimeA.Config.{Lookup, load_config, required_value}
use ne_kiro_samples.RuntimeA.Config.Required.{IsProvided, load_settings_iff}
use ne_kiro_samples.RuntimeA.Examples.{test_config}

abbrev pub test_lookup : Lookup
test_lookup name =
    if name == "RUNTIME_A_LISTEN_ADDR"
    then some "h:1"
    else if name == "RUNTIME_A_AGENT_ID"
    then some "agent-a"
    else if name == "RUNTIME_A_INSTANCE_ID"
    then some "runtime-a"
    else if name == "RUNTIME_A_ROUTER_URL"
    then some "u"
    else if name == "RUNTIME_A_ROUTER_TOKEN"
    then some "k"
    else if name == "RUNTIME_A_TARGET_AGENT_ID"
    then some "agent-b"
    else if name == "RUNTIME_A_TARGET_CAPABILITY"
    then some "c"
    else some "1"

needs_address :
    load_config test_environment (λ name. none) ≡ err (plain "RUNTIME_A_LISTEN_ADDR is required")
unfolding load_config required_value
needs_address = refl

load_settings_iff_example :
    (load_config test_environment test_lookup ≡ ok test_config)
    ↔ IsProvided test_environment test_lookup test_config
load_settings_iff_example = load_settings_iff test_environment test_lookup test_config
