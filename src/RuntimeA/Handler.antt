-- ===== src/RuntimeA/Handler.antt =====
-- runtime-a/handler.go: the requests that Runtime A answers.
pub mod Echo
pub mod Combined
pub mod Lineage
pub mod Failures
pub mod Answers
use ne_kiro_samples.Base.{
  String, ℕ, Bool, true, false, not, ◌&&◌, ◌==◌, Option, none, some, List, [], ◌∷◌, Outcome, ok,
  err, panic, Error, plain, wrapped, invalid_params, unsupported_operation, as_router_error, guard,
  or_fail, ◌>>=◌, ◌>>◌, if◌then◌else◌,
}
use Prim.Native.String.{◌++◌}
use ne_kiro_samples.Base.Dict.{lookup}
use ne_kiro_samples.A2a.{
  str, raw, Fields, field, end, data_part, agent, Message, SendResult, sent_message,
}
use ne_kiro_samples.Platform.{Claims, Library, Invoker, RequestMeta, Profile}
use ne_kiro_samples.RuntimeA.Config.{Config, Environment, validate}
use ne_kiro_samples.RuntimeA.Nested.{
  NestedService, new_nested_service, platform_context, root_input, root_input_value,
  responder_message, decoded_fields,
}
use ne_kiro_samples.RuntimeA.Engine.{Framework, Engine, new_runtime_engine, run}

pub record Handler : Type 0 where
  pub config : Config
  pub service : NestedService
  pub engine : Engine

unfoldable pub new_handler_with_invoker :
    Environment → Library → Framework → Outcome Profile → Config → Option Invoker → Outcome Handler
unfolding new_nested_service new_runtime_engine
new_handler_with_invoker env lib framework loaded config invoker = do
  validate env config
  service ← new_nested_service loaded config invoker
  engine ← new_runtime_engine lib framework config (some service)
  ok (record { config = config; service = service; engine = engine })

abbrev client_created : Outcome Invoker → Outcome Invoker
client_created (ok sdk) = ok sdk
client_created (err e) = err (wrapped "runtime-a create Agent SDK client: " e)
client_created (panic m) = panic m

-- The SDK's client is a function of the settings.
unfoldable pub new_handler :
    Environment
    → Library
    → Framework
    → Outcome Profile
    → (Config → Outcome Invoker)
    → Config
    → Outcome Handler
unfolding new_handler_with_invoker
new_handler env lib framework loaded new_client config = do
  validate env config
  sdk ← client_created (new_client config)
  new_handler_with_invoker env lib framework loaded config (some sdk)

-- What is read of a request's context: the A2A call context with its metadata, which may be nil, and
-- the claims of the credential.
pub record Context : Type 0 where
  pub call : Option (Option RequestMeta)
  pub claims : Option Claims

-- a2a.MessageSendParams; a nil pointer is `none`.
pub record SendParams : Type 0 where
  pub message : Option Message

abbrev pub message_of : Option SendParams → Option Message
message_of none = none
message_of (some p) = p.message

abbrev field_of : String → List (String × String) → String → Outcome String
field_of name fields text = or_fail (lookup name fields) (plain text)

abbrev pub is_text : Option String → (String → Bool) → Bool
is_text none test = false
is_text (some s) test = test s

-- The three raw fields of a combined result.
unfoldable pub combined_data : Library → String → Outcome Fields
combined_data lib result = do
  fields ←
      or_fail (decoded_fields (lib.unmarshal_fields result))
        (plain "combined result must be an object")
  agent_name ← field_of "agent" fields "combined result agent marker is invalid"
  guard (is_text (lib.unmarshal_string agent_name) (λ s. s == "runtime-a"))
      (plain "combined result agent marker is invalid")
  child_id ← field_of "childInvocationId" fields "combined result child invocation is missing"
  guard (is_text (lib.unmarshal_string child_id) (λ s. not (s == "")))
      (plain "combined result child invocation is missing")
  child_result ← field_of "childResult" fields "combined result child result is missing"
  guard (not (child_result == "") && lib.valid_json child_result)
      (plain "combined result child result is missing")
  ok (
      field "agent" (raw agent_name)
        (field "childInvocationId" (raw child_id) (field "childResult" (raw child_result) end)))

unfoldable pub safe_runtime_failure : Error → Error
safe_runtime_failure e = elim (as_router_error e) [
  | some code ↦ plain ("runtime-a nested Router failure: " ++ code)
  | none ↦ plain "runtime-a nested invocation failure (unknown category)"
]

abbrev pub safe_run : Outcome String → Outcome String
safe_run (ok result) = ok result
safe_run (err e) = err (safe_runtime_failure e)
safe_run (panic m) = panic m

abbrev pub combined_or_invalid : Outcome Fields → Outcome Fields
combined_or_invalid (ok fields) = ok fields
combined_or_invalid (err e) = err (plain "runtime-a combined result is invalid")
combined_or_invalid (panic m) = panic m

unfoldable pub result_message : Message → Fields → Message
result_message input combined = record {
  id = "runtime-a-result-" ++ input.id;
  context_id = input.context_id;
  task_id = "";
  role = agent;
  parts = data_part (some combined) none ∷ [];
  extensions = [];
  metadata = none;
  reference_tasks = [];
}

-- The capability runtime.echo: an answer without a nested call.
unfoldable pub send_echo : Library → Message → Outcome SendResult
send_echo lib message = do
  value ← root_input_value lib (some message)
  ok (sent_message (responder_message message value))

-- Any other capability: a nested call through the framework.
unfoldable pub send_nested :
    Library → Framework → Handler → Option RequestMeta → Message → Outcome SendResult
send_nested lib framework h meta message = do
  context ← platform_context lib h.service meta
  input ← root_input lib (some message)
  result ← safe_run (run lib framework h.engine context input)
  combined ← combined_or_invalid (combined_data lib result)
  ok (sent_message (result_message message combined))

abbrev pub answer :
    Library → Framework → Handler → Claims → Option RequestMeta → Message → Outcome SendResult
answer lib framework h claims meta message =
    if claims.capability == "runtime.echo"
    then send_echo lib message
    else send_nested lib framework h meta message

unfoldable pub on_send_message :
    Library → Framework → Handler → Context → Option SendParams → Outcome SendResult
unfolding send_echo send_nested
on_send_message lib framework h context params = do
  message ← or_fail (message_of params) (invalid_params "message is required")
  meta ← or_fail context.call (invalid_params "managed A2A call context is required")
  claims ← or_fail context.claims (invalid_params "managed Router credential context is required")
  guard (claims.agent_id == h.config.agent_id)
      (invalid_params "managed Router credential Agent identity is invalid")
  answer lib framework h claims meta message

-- The operations that Runtime A does not support; the streams among them yield the error as their one
-- event.
pub data OtherOperation : Type 0 where
  send_message_stream get_task cancel_task list_tasks resubscribe_to_task : OtherOperation
  get_task_push_config list_task_push_config set_task_push_config : OtherOperation
  delete_task_push_config get_extended_agent_card : OtherOperation

unfoldable pub on_other : OtherOperation → Error
on_other operation = unsupported_operation
