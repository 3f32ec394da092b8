-- ===== src/RuntimeA/Nested.antt =====
-- runtime-a/nested.go: the input of a nested call, the call itself, and the answers.
pub mod Input
pub mod Headers
pub mod Refusals
use ne_kiro_samples.Base.{
  String, ℕ, Bool, true, false, not, ◌&&◌, ◌==◌, Option, none, some, List, [], ◌∷◌, Outcome, ok,
  err, panic, Error, plain, wrapped, invalid_params, guard, or_fail, nat_eq, ◌>>=◌, ◌>>◌,
  if◌then◌else◌,
}
use Prim.Native.String.{◌++◌}
use ne_kiro_samples.Base.Dict.{lookup}
use ne_kiro_samples.A2a.{
  Value, str, raw, Fields, field, end, field_count, get_field, entries, Part, data_part, Role, user,
  agent, Message,
}
use ne_kiro_samples.Platform.{PlatformContext, NestedResult, Library, Invoker, RequestMeta, Profile}
use ne_kiro_samples.RuntimeA.Config.{Config}

pub record NestedService : Type 0 where
  pub config : Config
  pub profile : Profile
  pub invoker : Invoker

abbrev profile_loaded : Outcome Profile → Outcome Profile
profile_loaded (ok profile) = ok profile
profile_loaded (err e) = err (wrapped "runtime-a load A2A profile: " e)
profile_loaded (panic m) = panic m

-- A nil invoker is `none`; the profile is what contracts.LoadA2AProfile returns.
unfoldable pub new_nested_service :
    Outcome Profile → Config → Option Invoker → Outcome NestedService
new_nested_service loaded config invoker = do
  given ← or_fail invoker (plain "runtime-a nested invoker is required")
  profile ← profile_loaded loaded
  ok (record { config = config; profile = profile; invoker = given })

unfoldable pub invoke_with_context : NestedService → PlatformContext → String → Outcome NestedResult
invoke_with_context service context input = do
  returned ← service.invoker context (record {
    target_agent_id = service.config.target_agent_id;
    capability = service.config.capability;
    input = input;
    stream = false;
  })
  result ← or_fail returned (plain "runtime-a child invocation identity is missing")
  guard (not (result.invocation_id == "")) (plain "runtime-a child invocation identity is missing")
  guard (not (result.invocation_id == context.invocation_id))
      (plain "runtime-a child invocation must differ from its parent")
  ok result

-- The one value of a header.
abbrev pub one_value : Option (List String) → Option String
one_value (some (value ∷ [])) = if value == "" then none else some value
one_value _ = none

unfoldable pub required_header : RequestMeta → String → Outcome String
required_header meta name =
    or_fail (one_value (meta name)) (invalid_params (name ++ " header is required exactly once"))

abbrev pub valid_context : Library → PlatformContext → Outcome (Unit {0})
valid_context lib context = elim (lib.validate_context context) [
  | none ↦ ok tt
  | some text ↦ err (invalid_params text)
]

-- A nil meta is `none`.
unfoldable pub platform_context :
    Library → NestedService → Option RequestMeta → Outcome PlatformContext
unfolding required_header
platform_context lib service none = err (invalid_params "managed A2A request metadata is required")
platform_context lib service (some meta) = do
  trace_id ← required_header meta service.profile.trace_id
  invocation_id ← required_header meta service.profile.invocation_id
  root_task_id ← required_header meta service.profile.root_task_id
  workspace_id ← required_header meta service.profile.workspace_id
  let context : PlatformContext = record {
    invocation_id = invocation_id;
    root_task_id = root_task_id;
    trace_id = trace_id;
    workspace_id = workspace_id;
    agent_id = service.config.agent_id;
  } in
      valid_context lib context >> ok context

abbrev pub is_user : Role → Bool
is_user user = true
is_user _ = false

-- len(message.Parts) != 1
abbrev pub one_part : List Part → Outcome Part
one_part (part ∷ []) = ok part
one_part _ = err (invalid_params "exactly one data part is required")

abbrev pub data_of : Part → Outcome Fields
data_of (data_part content metadata) = ok (entries content)
data_of _ = err (invalid_params "the request part must be structured data")

-- part.Data["fixture"].(string), and that it is "success".
abbrev pub is_success : Option Value → Bool
is_success (some (str s)) = s == "success"
is_success _ = false

-- map[string]json.RawMessage{"fixture": …, "value": …}
abbrev pub input_fields : String → List (String × String)
input_fields value = ("fixture", "\"success\"") ∷ ("value", value) ∷ []

-- The text of json.Marshal's error is left out of the last error.
unfoldable pub root_input : Library → Option Message → Outcome String
root_input lib given = do
  message ← or_fail given (invalid_params "message is required")
  guard (not (message.id == "")) (invalid_params "messageId is required")
  guard (is_user message.role) (invalid_params "message role must be user")
  part ← one_part message.parts
  content ← data_of part
  guard (nat_eq (field_count content) 2)
      (invalid_params "the data part must contain only fixture and value")
  guard (is_success (get_field "fixture" content)) (invalid_params "fixture must be success")
  value ← or_fail (get_field "value" content) (invalid_params "value is required")
  encoded_value ← or_fail (lib.marshal value) (invalid_params "value must be JSON-compatible")
  or_fail (lib.marshal_fields (input_fields encoded_value)) (plain "runtime-a encode nested input")

-- json.Unmarshal into a map of raw messages: an error, or a nil map, fails.
abbrev pub decoded_fields :
    Option (Option (List (String × String))) → Option (List (String × String))
decoded_fields none = none
decoded_fields (some fields) = fields

abbrev pub two_fields : List (String × String) → Bool
two_fields (x ∷ y ∷ []) = true
two_fields _ = false

-- The value as a raw message.
unfoldable pub root_input_value : Library → Option Message → Outcome String
unfolding root_input
root_input_value lib message = do
  input ← root_input lib message
  fields ←
      or_fail (decoded_fields (lib.unmarshal_fields input))
        (plain "runtime-a responder input is invalid")
  guard (two_fields fields) (plain "runtime-a responder input is invalid")
  value ← or_fail (lookup "value" fields) (plain "runtime-a responder value is missing")
  guard (not (value == "") && lib.valid_json value) (plain "runtime-a responder value is missing")
  ok value

unfoldable pub responder_message : Message → String → Message
responder_message input value = record {
  id = "runtime-a-responder-result-" ++ input.id;
  context_id = input.context_id;
  task_id = "";
  role = agent;
  parts =
      data_part
        (some (
          field "agent" (str "runtime-a")
            (field "fixture" (str "success") (field "value" (raw value) end))))
        none
      ∷ [];
  extensions = [];
  metadata = none;
  reference_tasks = [];
}

abbrev pub is_full : NestedResult → Bool
is_full r =
    not (r.invocation_id == "")
    && (not (r.root_task_id == "") && (not (r.trace_id == "") && r.status == "succeeded"))

-- The struct of combinedResult, by its JSON names.
abbrev pub combined_fields : (child_id child_result : String) → Value
combined_fields child_id child_result = Value.obj (
    field "agent" (str "runtime-a")
      (field "childInvocationId" (str child_id) (field "childResult" (raw child_result) end)))

-- A nil result is `none`.
unfoldable pub combined_result : Library → Option NestedResult → Outcome String
combined_result lib given = do
  result ← or_fail given (plain "runtime-a nested result is required")
  guard (is_full result) (plain "runtime-a nested result is incomplete")
  child_result ← or_fail result.result (plain "runtime-a nested result is incomplete")
  or_fail (lib.marshal (combined_fields result.invocation_id child_result))
      (plain "runtime-a encode combined result")
