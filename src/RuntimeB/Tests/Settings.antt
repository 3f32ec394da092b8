-- ===== src/RuntimeB/Tests/Settings.antt =====
-- The settings of a test environment.
use ne_kiro_samples.Base.{◌≡◌, refl, ◌↔◌, ◌==◌, if◌then◌else◌, none, some, ok, err, plain}
use ne_kiro_samples.Identifier.{is_identifier, all_characters}
use ne_kiro_samples.RuntimeB.Config.{
  Lookup, validate, load_config, validate_router_url, required_limit, required_value,
  required_identifier, validate_required_value, validate_identifier_value,
}
use ne_kiro_samples.RuntimeB.Config.Required.{IsProvided, load_config_iff}
use ne_kiro_samples.Settings.Examples.{test_environment}
use ne_kiro_samples.Base.{List, [], ◌∷◌}
use ne_kiro_samples.RuntimeB.Nested.{NestedService}
use ne_kiro_samples.RuntimeB.Handler.{Handler, new_handler}
use ne_kiro_samples.RuntimeB.Stream.{continue}
use ne_kiro_samples.RuntimeB.System.{Operation, opens, resumes, run, idle}
use ne_kiro_samples.RuntimeB.System.Invariant.{IsConsistent}
use ne_kiro_samples.RuntimeB.Configured.{
  NewClient, new_configured_handler, configured_server-IsConsistent,
}
use ne_kiro_samples.RuntimeB.Examples.{
  test_config, test_library, test_library-stable, test_claims, params_with, hold_fields,
}

abbrev pub test_lookup : Lookup
test_lookup name =
    if name == "RUNTIME_B_AGENT_ID"
    then some "agent-b"
    else if name == "RUNTIME_B_INSTANCE_ID"
    then some "runtime-b"
    else if name == "RUNTIME_B_ROUTER_URL"
    then some "u"
    else if name == "RUNTIME_B_ROUTER_TOKEN"
    then some "k"
    else if name == "RUNTIME_B_TARGET_AGENT_ID"
    then some "agent-c"
    else if name == "RUNTIME_B_TARGET_CAPABILITY"
    then some "c"
    else some "1"

computing : Unit {0}
unfolding load_config validate validate_router_url required_limit required_value required_identifier
    validate_required_value validate_identifier_value is_identifier all_characters
computing = tt

loads : load_config test_environment test_lookup ≡ ok test_config
unfolding computing
loads = refl

needs_agent :
    load_config test_environment (λ name. none) ≡ err (plain "RUNTIME_B_AGENT_ID is required")
unfolding computing
needs_agent = refl

load_config_iff_example :
    (load_config test_environment test_lookup ≡ ok test_config)
    ↔ IsProvided test_environment test_lookup test_config
load_config_iff_example = load_config_iff test_environment test_lookup test_config

abbrev test_client : NewClient
test_client config = ok (λ context request. ok none)

abbrev configured : Handler
configured = record new_handler {
  agent_id = "agent-b";
  instance_id = "runtime-b";
  nested = some (record { config = test_config; invoker = λ context request. ok none });
}

configured_made : new_configured_handler test_environment test_client test_config ≡ ok configured
unfolding computing new_configured_handler
configured_made = refl

abbrev requests : List Operation
requests = opens (some test_claims) (params_with "m1" hold_fields) ∷ resumes 0 continue ∷ []

configured_server-IsConsistent_example :
    (validate test_environment test_config ≡ ok tt)
    × ((service : NestedService) × (configured.nested ≡ some service)
        × (service.config ≡ test_config))
    × IsConsistent test_library (run test_library (idle configured) requests)
configured_server-IsConsistent_example =
    configured_server-IsConsistent test_library test_environment test_client test_config configured
      requests test_library-stable configured_made
