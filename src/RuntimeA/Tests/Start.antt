-- ===== src/RuntimeA/Tests/Start.antt =====
-- The start of the command with the packages of the tests.
use ne_kiro_samples.Base.{◌≡◌, refl, true, some, ok}
use ne_kiro_samples.Identifier.{is_identifier, all_characters}
use ne_kiro_samples.Settings.Examples.{test_environment}
use ne_kiro_samples.Web.{registered, Answer, written, serve_mux}
use ne_kiro_samples.ChallengeProof.{serve_http}
use ne_kiro_samples.ChallengeProof.Start.{new_handler as new_challenge_handler, application}
use ne_kiro_samples.Command.{HostConfig, registration, new_runtime_registration}
use ne_kiro_samples.Command.Examples.{
  accepts, asks, test_web, test_web-Protects, test_files, test_proofs, test_registration, test_host,
  bare, signed,
}
use ne_kiro_samples.RuntimeA.Config.{
  validate, load_config, validate_listen_address, parse_port, validate_router_url, required_limit,
  required_value, required_identifier, validate_required_value, validate_identifier_value,
}
use ne_kiro_samples.RuntimeA.Nested.{new_nested_service}
use ne_kiro_samples.RuntimeA.Engine.{new_runtime_engine}
use ne_kiro_samples.RuntimeA.Handler.{new_handler, new_handler_with_invoker}
use ne_kiro_samples.RuntimeA.Server.{routes_of, new_http_handler_with_readiness}
use ne_kiro_samples.RuntimeA.Command.{Packages, prepare}
use ne_kiro_samples.RuntimeA.Command.Prepared.{IsPrepared, prepare-IsPrepared}
use ne_kiro_samples.RuntimeA.Command.Guards.{with_server, command_guards}
use ne_kiro_samples.RuntimeA.Examples.{test_library, test_framework, test_profile, test_invoker}
use ne_kiro_samples.RuntimeA.Tests.Settings.{test_lookup}

abbrev test_packages : Packages
test_packages = record {
  env = test_environment;
  lib = test_library;
  framework = test_framework;
  profile = ok test_profile;
  new_client = λ config. ok test_invoker;
  web = test_web;
  new_json_rpc = λ h ready request. written "agent";
  files = test_files;
  proofs = test_proofs;
  host = test_host;
}

-- What is hosted, with the answer of the JSON-RPC server.
abbrev hosts : Answer → HostConfig
hosts answer = record {
  address = "h:1";
  application = application test_proofs (
    serve_mux test_web (routes_of asks registered (λ ready request. answer)),
    record { directory = "1" },
  );
  registration = some (registration test_registration);
  shutdown_timeout = 7;
}

computing : Unit {0}
unfolding prepare load_config validate validate_listen_address parse_port validate_router_url
    required_limit required_value required_identifier validate_required_value
    validate_identifier_value is_identifier all_characters new_runtime_registration new_handler
    new_handler_with_invoker new_nested_service new_runtime_engine new_http_handler_with_readiness
    new_challenge_handler
computing = tt

prepares : prepare test_packages test_lookup ≡ ok (hosts (written "agent"))
unfolding computing
prepares = refl

prepare-IsPrepared_example : IsPrepared test_packages test_lookup (hosts (written "agent"))
prepare-IsPrepared_example =
    prepare-IsPrepared test_packages test_lookup (hosts (written "agent")) prepares

prepares_other :
    prepare (with_server test_packages (λ h ready request. written "other")) test_lookup
    ≡ ok (hosts (written "other"))
unfolding computing
prepares_other = refl

answers_signed : (hosts (written "agent")).application true signed ≡ written "agent"
unfolding serve_http
answers_signed = refl

command_guards_example :
    (hosts (written "agent")).application true bare
    ≡ (hosts (written "other")).application true bare
command_guards_example =
    command_guards test_packages (λ h ready request. written "other") test_lookup
      (hosts (written "agent")) (hosts (written "other")) accepts true bare test_web-Protects
      prepares prepares_other refl
