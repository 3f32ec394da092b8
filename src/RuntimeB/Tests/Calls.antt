-- ===== src/RuntimeB/Tests/Calls.antt =====
-- The theorems on nested calls at concrete inputs.
use ne_kiro_samples.Base.{plain}
use ne_kiro_samples.RuntimeB.Send.Safe.{IsSafeError}
use ne_kiro_samples.RuntimeB.Send.Failures.{on_send_message-IsSafeError}
use ne_kiro_samples.Base.{String, Option, some, ◌≡◌, refl, ok, err}
use ne_kiro_samples.A2a.{str, field, end, sent_message}
use ne_kiro_samples.Base.Dict.{lookup, insert}
use ne_kiro_samples.RuntimeB.Fixture.{SendParams, parse_fixture}
use ne_kiro_samples.Platform.{Claims, NestedResult}
use ne_kiro_samples.RuntimeB.Identity.{
  task_owner, derived_id, context_or_derived, cancellation_observation_key,
}
use ne_kiro_samples.RuntimeB.Nested.{
  nested_input, nested_message, platform_context, invoke, safe_nested_failure,
}
use ne_kiro_samples.RuntimeB.Handler.{
  on_cancel_task, create_working_task, find_task, complete_task, remove_working_task,
  take_cancellation_observation, working_task, Handler, new_handler,
}
use ne_kiro_samples.RuntimeB.Handler.Get.{on_get_task}
use ne_kiro_samples.RuntimeB.Clone.{clone_task, clone_message}
use ne_kiro_samples.RuntimeB.Send.{on_send_message, send_nested}
use ne_kiro_samples.RuntimeB.Send.Lineage.{Lineage, send_nested-Lineage}
use ne_kiro_samples.RuntimeB.Stream.{open_stream, resume}
use ne_kiro_samples.RuntimeB.System.{step, run}
use ne_kiro_samples.RuntimeB.Examples.{
  test_library, test_claims, hold_message, test_service, test_config, params_with, failing_service,
}

-- Everything that a run computes with.
computing : Unit {0}
unfolding lookup insert run step open_stream resume on_cancel_task on_send_message
    create_working_task parse_fixture task_owner derived_id context_or_derived
    cancellation_observation_key clone_task clone_message complete_task remove_working_task
    take_cancellation_observation working_task find_task on_get_task
computing = tt

-- The answer of the test Router.
abbrev child : NestedResult
child = record {
  invocation_id = "child";
  root_task_id = "t";
  trace_id = "x";
  status = "succeeded";
  result = some "1";
}

answered :
    send_nested test_library
      (some (test_service test_config))
      (some test_claims)
      hold_message
      (str "v")
    ≡ ok (sent_message (nested_message test_library hold_message child))
unfolding send_nested platform_context invoke
answered = refl

send_nested-Lineage_example :
    (c : Claims) × (input : String) × (r : NestedResult) × (some test_claims ≡ some c)
    × (nested_input test_library (str "v") ≡ ok input)
    × Lineage (test_service test_config) c input r
    × (sent_message (nested_message test_library hold_message child)
        ≡ sent_message (nested_message test_library hold_message r))
send_nested-Lineage_example =
    send_nested-Lineage test_library (test_service test_config) (some test_claims) hold_message
      (str "v") (sent_message (nested_message test_library hold_message child)) answered

abbrev failing_server : Handler
failing_server = record new_handler { nested = some failing_service }

abbrev nested_params : Option SendParams
nested_params = params_with "m1" (field "fixture" (str "nested") (field "value" (str "v") end))

fails_nested :
    (on_send_message test_library failing_server (some test_claims) nested_params).1
    ≡ err (plain "runtime-b nested Router failure: no_route")
unfolding computing send_nested platform_context invoke safe_nested_failure
fails_nested = refl

on_send_message-IsSafeError_example :
    IsSafeError test_library failing_server
      (some test_claims)
      nested_params
      (plain "runtime-b nested Router failure: no_route")
on_send_message-IsSafeError_example =
    on_send_message-IsSafeError test_library failing_server (some test_claims) nested_params
      (plain "runtime-b nested Router failure: no_route") fails_nested
