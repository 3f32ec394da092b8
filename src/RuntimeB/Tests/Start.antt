-- ===== src/RuntimeB/Tests/Start.antt =====
-- The start of the command with the packages of the tests.
use ne_kiro_samples.Base.{◌≡◌, ◌↔◌, ◌==◌, if◌then◌else◌, refl, true, some, none, ok}
use ne_kiro_samples.Identifier.{is_identifier, all_characters}
use ne_kiro_samples.Settings.{Lookup}
use ne_kiro_samples.Settings.Examples.{test_environment}
use ne_kiro_samples.Web.{registered, Answer, written, serve_mux}
use ne_kiro_samples.ChallengeProof.{serve_http}
use ne_kiro_samples.ChallengeProof.Start.{new_handler as new_challenge_handler, application}
use ne_kiro_samples.Command.{HostConfig, registration, new_runtime_registration}
use ne_kiro_samples.Command.Examples.{
  accepts, asks, test_web, test_web-Protects, test_files, test_proofs, test_registration, test_host,
  bare, signed,
}
use ne_kiro_samples.RuntimeB.Config.{
  validate, load_config, validate_router_url, required_limit, required_value, required_identifier,
  validate_required_value, validate_identifier_value,
}
use ne_kiro_samples.RuntimeB.Configured.{new_nested_service, new_configured_handler}
use ne_kiro_samples.RuntimeB.Server.{
  routes_of, listen_address_from_environment, new_http_handler_with_auth_and_readiness,
}
use ne_kiro_samples.RuntimeB.Server.Listen.{Listens, listen_address_iff}
use ne_kiro_samples.RuntimeB.Command.{Packages, prepare}
use ne_kiro_samples.RuntimeB.Command.Prepared.{IsReady, prepare-IsReady}
use ne_kiro_samples.RuntimeB.Command.Guards.{with_server, authenticated_command_guards}
use ne_kiro_samples.RuntimeB.Tests.Settings.{test_lookup}

abbrev start_lookup : Lookup
start_lookup name = if name == "RUNTIME_B_LISTEN_ADDR" then some "h:1" else test_lookup name

abbrev test_packages : Packages
test_packages = record {
  env = test_environment;
  new_client = λ config. ok (λ context request. ok none);
  web = test_web;
  new_json_rpc = λ h ready request. written "agent";
  files = test_files;
  proofs = test_proofs;
  host = test_host;
}

-- What is hosted, with the answer of the JSON-RPC server.
abbrev hosts : Answer → HostConfig
hosts answer = record {
  address = "h:1";
  application = application test_proofs (
    serve_mux test_web (routes_of asks registered (λ ready request. answer)),
    record { directory = "1" },
  );
  registration = some (registration test_registration);
  shutdown_timeout = 7;
}

computing : Unit {0}
unfolding prepare load_config validate validate_router_url required_limit required_value
    required_identifier validate_required_value validate_identifier_value is_identifier
    all_characters new_runtime_registration new_configured_handler new_nested_service
    listen_address_from_environment new_http_handler_with_auth_and_readiness new_challenge_handler
computing = tt

prepares : prepare test_packages start_lookup ≡ ok (hosts (written "agent"))
unfolding computing
prepares = refl

prepare-IsReady_example : IsReady test_packages start_lookup (hosts (written "agent"))
prepare-IsReady_example =
    prepare-IsReady test_packages start_lookup (hosts (written "agent")) prepares

prepares_other :
    prepare (with_server test_packages (λ h ready request. written "other")) start_lookup
    ≡ ok (hosts (written "other"))
unfolding computing
prepares_other = refl

answers_signed : (hosts (written "agent")).application true signed ≡ written "agent"
unfolding serve_http
answers_signed = refl

authenticated_command_guards_example :
    (hosts (written "agent")).application true bare
    ≡ (hosts (written "other")).application true bare
authenticated_command_guards_example =
    authenticated_command_guards test_packages (λ h ready request. written "other") start_lookup
      (hosts (written "agent")) (hosts (written "other")) accepts true bare test_web-Protects
      prepares prepares_other refl

listen_address_iff_example :
    (listen_address_from_environment test_environment start_lookup ≡ ok "h:1")
    ↔ Listens test_environment start_lookup "h:1"
listen_address_iff_example = listen_address_iff test_environment start_lookup "h:1"

listens : listen_address_from_environment test_environment start_lookup ≡ ok "h:1"
unfolding listen_address_from_environment
listens = refl
