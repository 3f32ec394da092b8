-- ===== src/RuntimeA/Tests.antt =====
-- Requests to a test server.
mod Answers
mod Settings
mod Start
use ne_kiro_samples.Base.{
  String, true, false, ◌≡◌, ◌≢◌, ◌↔◌, ◌⊎◌, inl, inr, refl, Option, none, some, List, [], ◌∷◌, ◌++◌,
  Outcome, ok, err, plain,
}
use ne_kiro_samples.Base.Dict.{lookup}
use ne_kiro_samples.Identifier.{is_identifier, all_characters}
use ne_kiro_samples.Platform.{PlatformContext}
use ne_kiro_samples.Settings.Examples.{test_environment}
use ne_kiro_samples.RuntimeA.Config.{
  validate, validate_listen_address, parse_port, validate_router_url, validate_required_value,
  validate_identifier_value,
}
use ne_kiro_samples.A2a.{raw, field, end, SendResult, sent_message}
use ne_kiro_samples.RuntimeA.Nested.{
  new_nested_service, platform_context, required_header, invoke_with_context, root_input,
  root_input_value, combined_result,
}
use ne_kiro_samples.RuntimeA.Nested.Input.{Accepts, root_input_iff, root_input_value_roundtrip}
use ne_kiro_samples.RuntimeA.Nested.Headers.{FromHeaders, platform_context_iff}
use ne_kiro_samples.RuntimeA.Engine.{
  Event, last_content, read_events, decoded_raw, new_runtime_engine, agent_run, run,
}
use ne_kiro_samples.RuntimeA.Engine.Reference.{
  reference, read_events-eq-reference, read_events_stop,
}
use ne_kiro_samples.RuntimeA.Handler.{
  new_handler_with_invoker, combined_data, safe_runtime_failure, on_send_message, result_message,
  send_nested,
}
use ne_kiro_samples.RuntimeA.Handler.Echo.{request, params_of, echo_answer, echo_iff}
use ne_kiro_samples.RuntimeA.Handler.Combined.{raw_fields, ReadBack, combined_roundtrip}
use ne_kiro_samples.RuntimeA.Handler.Lineage.{NestedAnswer, on_send_message-NestedAnswer}
use ne_kiro_samples.RuntimeA.Handler.Failures.{IsSafe, on_send_message-IsSafe}
use ne_kiro_samples.RuntimeA.Examples.{
  test_library, test_library-inputs, test_library-objects, test_framework, test_framework-Faithful,
  test_claims, echo_claims, test_meta, test_profile, test_message, test_config, test_result,
  test_invoker, test_service, test_handler, failing_framework,
}

accepted : root_input test_library (some test_message) ≡ ok "input"
unfolding root_input
accepted = refl

root_input_iff_example :
    (root_input test_library (some test_message) ≡ ok "input")
    ↔ Accepts test_library test_message "input"
root_input_iff_example = root_input_iff test_library test_message "input"

test_message-Accepts : Accepts test_library test_message "input"
test_message-Accepts = root_input_iff_example.0 accepted

reads_value : root_input_value test_library (some test_message) ≡ ok test_message-Accepts.encoded
reads_value =
    root_input_value_roundtrip test_library test_message "input" test_library-inputs
      test_message-Accepts

abbrev test_context : PlatformContext
test_context = record {
  invocation_id = "invocation";
  root_task_id = "root";
  trace_id = "trace";
  workspace_id = "workspace";
  agent_id = "agent-a";
}

platform_context_iff_example :
    (platform_context test_library test_service (some test_meta) ≡ ok test_context)
    ↔ FromHeaders test_library test_service test_meta test_context
platform_context_iff_example = platform_context_iff test_library test_service test_meta test_context

found : platform_context test_library test_service (some test_meta) ≡ ok test_context
unfolding platform_context required_header
found = refl

abbrev says : String → Event
says text = record {
  terminal_error = false;
  error = none;
  choices = some (text ∷ "" ∷ []);
  completion = false;
}

abbrev ends : Event
ends = record { terminal_error = false; error = none; choices = none; completion = true }

abbrev fails : Event
fails = record { terminal_error = true; error = some "boom"; choices = none; completion = false }

read_events-eq-reference_example :
    read_events "" (some (says "a") ∷ none ∷ some (says "b") ∷ some ends ∷ some fails ∷ [])
    ≡ reference (some (says "a") ∷ none ∷ some (says "b") ∷ some ends ∷ some fails ∷ [])
read_events-eq-reference_example =
    read_events-eq-reference
      (some (says "a") ∷ none ∷ some (says "b") ∷ some ends ∷ some fails ∷ [])

reads_last :
    read_events "" (some (says "a") ∷ none ∷ some (says "b") ∷ some ends ∷ some fails ∷ []) ≡ ok "b"
unfolding read_events last_content
reads_last = refl

reads_error : read_events "" (some (says "a") ∷ some fails ∷ some ends ∷ []) ≡ err (plain "boom")
unfolding read_events last_content
reads_error = refl

read_events_stop_example :
    read_events "" ((some (says "a") ∷ []) ++ some ends ∷ some fails ∷ [])
    ≡ read_events "" ((some (says "a") ∷ []) ++ some ends ∷ [])
read_events_stop_example =
    read_events_stop "" (some (says "a") ∷ []) ends (some fails ∷ []) [] (inl refl)

abbrev echoed : SendResult
echoed = sent_message (echo_answer test_message test_message-Accepts.encoded)

echo_iff_example :
    (on_send_message test_library test_framework test_handler
        (request echo_claims (some test_meta))
        (params_of test_message)
      ≡ ok echoed)
    ↔ ((input : String) × (a : Accepts test_library test_message input) × (echoed
          ≡ sent_message (echo_answer test_message a.encoded)))
echo_iff_example =
    echo_iff test_library test_library-inputs test_message echoed test_framework test_handler
      echo_claims (some test_meta) refl refl

echoes :
    on_send_message test_library test_framework test_handler
      (request echo_claims (some test_meta))
      (params_of test_message)
    ≡ ok echoed
echoes = echo_iff_example.1 ("input", test_message-Accepts, refl)

combined : combined_result test_library (some test_result) ≡ ok "combined"
unfolding combined_result
combined = refl

combined_roundtrip_example : ReadBack test_library test_result "combined"
combined_roundtrip_example =
    combined_roundtrip test_library test_result "combined" test_library-objects combined

handler_made :
    new_handler_with_invoker test_environment test_library test_framework
      (ok test_profile)
      test_config
      (some test_invoker)
    ≡ ok test_handler
unfolding new_handler_with_invoker new_nested_service new_runtime_engine validate
    validate_listen_address parse_port validate_router_url validate_required_value
    validate_identifier_value is_identifier all_characters
handler_made = refl

abbrev nested_answer : SendResult
nested_answer = sent_message (result_message test_message (raw_fields "runtime-a" "child" "1"))

answers_nested :
    on_send_message test_library test_framework test_handler
      (request test_claims (some test_meta))
      (params_of test_message)
    ≡ ok nested_answer
unfolding on_send_message send_nested platform_context required_header root_input run agent_run
    invoke_with_context combined_result read_events last_content combined_data lookup
answers_nested = refl

on_send_message-NestedAnswer_example :
    NestedAnswer test_library test_handler (some test_meta) test_message nested_answer
on_send_message-NestedAnswer_example =
    on_send_message-NestedAnswer test_environment test_library test_framework (ok test_profile)
      test_config (some test_invoker) test_handler test_claims (some test_meta) test_message
      nested_answer test_framework-Faithful handler_made refl (λ same. cc) answers_nested

failing :
    on_send_message test_library failing_framework test_handler
      (request test_claims (some test_meta))
      (params_of test_message)
    ≡ err (plain "runtime-a nested Router failure: no_route")
unfolding on_send_message send_nested platform_context required_header root_input run
    safe_runtime_failure
failing = refl

on_send_message-IsSafe_example :
    IsSafe test_library failing_framework test_handler
      (request test_claims (some test_meta))
      (params_of test_message)
      (plain "runtime-a nested Router failure: no_route")
on_send_message-IsSafe_example =
    on_send_message-IsSafe test_library failing_framework test_handler
      (request test_claims (some test_meta)) (params_of test_message)
      (plain "runtime-a nested Router failure: no_route") failing
