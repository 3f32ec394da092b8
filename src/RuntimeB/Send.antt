-- ===== src/RuntimeB/Send.antt =====
-- runtime-b/handler.go: message/send, and the messages that the handler makes.
pub mod Tasks
pub mod Lineage
pub mod Safe
pub mod Failures
use ne_kiro_samples.Base.{
  ℕ, Option, none, some, [], ◌∷◌, ◌==◌, if◌then◌else◌, ltb, Outcome, ok, err, panic, Error, plain,
  invalid_params, ◌>>=◌,
}
use ne_kiro_samples.A2a.{
  Value, str, int, bool, Fields, field, end, data_part, agent, Message, Task, working, SendResult,
  sent_message, sent_task,
}
use ne_kiro_samples.Platform.{Claims, Library}
use ne_kiro_samples.RuntimeB.Identity.{derived_id, context_or_derived, cancellation_observation_key}
use ne_kiro_samples.RuntimeB.Fixture.{
  success, stream_success, failure, protocol, hold, cancel_observed, interrupted, nested, kind_text,
  FixtureRequest, SendParams, parse_fixture,
}
use ne_kiro_samples.RuntimeB.Clone.{clone_message}
use ne_kiro_samples.RuntimeB.Nested.{
  NestedService, platform_context, invoke, nested_message, safe_nested_failure,
}
use ne_kiro_samples.RuntimeB.Handler.{Handler, status_of, take_cancellation_observation}

-- A message of the agent in answer to `input`, with one data part.
abbrev answer : Library → Message → Fields → Message
answer lib input content = record {
  id = derived_id lib "message" input.id;
  context_id = context_or_derived lib input.context_id input.id;
  task_id = "";
  role = agent;
  parts = data_part (some content) none ∷ [];
  extensions = [];
  metadata = none;
  reference_tasks = [];
}

unfoldable pub success_message : Library → Handler → Message → FixtureRequest → Message
success_message lib h input request = answer lib input (
    field "agent" (str "runtime-b") (
      field "instanceId" (str h.instance_id)
        (field "fixture" (str (kind_text request.kind)) (field "value" request.value end))))

unfoldable pub cancel_observation_message : Library → Handler → Message → ℕ → Message
cancel_observation_message lib h input count = answer lib input (
    field "agent" (str "runtime-b") (
      field "instanceId" (str h.instance_id) (
        field "fixture" (str "cancel-observed")
          (field "canceled" (bool (ltb 0 count)) (field "cancelCount" (int count) end)))))

unfoldable pub protocol_task : Library → Message → Outcome Task
protocol_task lib input = do
  cloned ← clone_message lib input
  ok (record {
    id = derived_id lib "protocol-task" input.id;
    context_id = context_or_derived lib input.context_id input.id;
    status = status_of working;
    history = cloned ∷ [];
    artifacts = none;
    metadata = none;
  })

-- The marker is request.value.(string), which must not be empty.
unfoldable pub observe_cancellation :
    Library → Handler → Option Claims → Message → Value → Handler × Outcome SendResult
unfolding take_cancellation_observation
observe_cancellation lib h claims message (str marker) =
    if marker == ""
    then (h, err (invalid_params "cancel observation marker must be a non-empty string"))
    else let (h', count) =
        take_cancellation_observation h (cancellation_observation_key claims marker) in
      (h', ok (sent_message (cancel_observation_message lib h message count)))
observe_cancellation lib h claims message _ =
    (h, err (invalid_params "cancel observation marker must be a non-empty string"))

abbrev pub safe_invocation {ℓ} : {A : Type ℓ} → Outcome A → Outcome A
safe_invocation (ok a) = ok a
safe_invocation (err e) = err (safe_nested_failure e)
safe_invocation (panic m) = panic m

unfoldable pub send_nested :
    Library → Option NestedService → Option Claims → Message → Value → Outcome SendResult
send_nested lib none claims message value = err (invalid_params "nested fixture is not configured")
send_nested lib (some service) claims message value = do
  context ← platform_context lib service claims
  result ← safe_invocation (invoke lib service context value)
  ok (sent_message (nested_message lib message result))

abbrev send_protocol : Library → Message → Outcome SendResult
send_protocol lib message = do task ← protocol_task lib message; ok (sent_task task)

abbrev pub fixture_failure : Error
fixture_failure = plain "runtime-b deterministic fixture failure"

unfoldable pub dispatch_send :
    Library → Handler → Option Claims → Message → FixtureRequest → Handler × Outcome SendResult
unfolding observe_cancellation send_nested success_message cancel_observation_message protocol_task
dispatch_send lib h claims message request = elim request.kind [
  | success ↦ (h, ok (sent_message (success_message lib h message request)))
  | cancel_observed ↦ observe_cancellation lib h claims message request.value
  | nested ↦ (h, send_nested lib h.nested claims message request.value)
  | failure ↦ (h, err fixture_failure)
  | protocol ↦ (h, send_protocol lib message)
  | stream_success ↦ (h, err (invalid_params "fixture requires message/stream"))
  | hold ↦ (h, err (invalid_params "fixture requires message/stream"))
  | interrupted ↦ (h, err (invalid_params "fixture is not supported"))
]

abbrev pub send_parsed :
    Library
    → Handler
    → Option Claims
    → Outcome (Message × FixtureRequest)
    → Handler × Outcome SendResult
send_parsed lib h claims (ok (message, request)) = dispatch_send lib h claims message request
send_parsed lib h claims (err e) = (h, err e)
send_parsed lib h claims (panic m) = (h, panic m)

unfoldable pub on_send_message :
    Library → Handler → Option Claims → Option SendParams → Handler × Outcome SendResult
unfolding dispatch_send
on_send_message lib h claims params = send_parsed lib h claims (parse_fixture lib params)
