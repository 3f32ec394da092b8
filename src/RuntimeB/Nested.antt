-- ===== src/RuntimeB/Nested.antt =====
-- runtime-b/nested.go: a nested call through the Router on behalf of the running invocation.
use ne_kiro_samples.Base.{
  String, Bool, not, Option, none, some, [], ◌∷◌, ◌&&◌, ◌==◌, Outcome, ok, err, panic, Error, plain,
  invalid_params, as_router_error, or_fail, guard, ◌>>=◌, ◌>>◌, false, true,
}
use Prim.Native.String.{◌++◌}
use ne_kiro_samples.A2a.{Value, str, raw, field, end, data_part, agent, Message}
use ne_kiro_samples.Platform.{Claims, PlatformContext, NestedResult, Library, Invoker}
use ne_kiro_samples.RuntimeB.Identity.{context_or_derived}
use ne_kiro_samples.RuntimeB.Config.{Config}

pub record NestedService : Type 0 where
  pub config : Config
  pub invoker : Invoker

abbrev pub validated : Library → PlatformContext → Outcome PlatformContext
validated lib context = elim (lib.validate_context context) [
  | none ↦ ok context
  | some text ↦ err (plain text)
]

unfoldable pub platform_context_from_claims : Library → Claims → String → Outcome PlatformContext
platform_context_from_claims lib claims agent_id = do
  guard (claims.agent_id == agent_id) (plain "managed Router credential Agent identity is invalid")
  validated lib (record {
    invocation_id = claims.invocation_id;
    root_task_id = claims.root_task_id;
    trace_id = claims.trace_id;
    workspace_id = claims.workspace_id;
    agent_id = claims.agent_id;
  })

-- err.Error() of the errors above.
abbrev error_text : Error → String
error_text (plain text) = text
error_text _ = ""

-- `return invalidParams(err.Error())`
abbrev pub as_invalid {ℓ} : {A : Type ℓ} → Outcome A → Outcome A
as_invalid (ok a) = ok a
as_invalid (err e) = err (invalid_params (error_text e))
as_invalid (panic m) = panic m

unfoldable pub platform_context : Library → NestedService → Option Claims → Outcome PlatformContext
unfolding platform_context_from_claims
platform_context lib service none =
    err (invalid_params "managed Router credential context is required")
platform_context lib service (some claims) =
    as_invalid (platform_context_from_claims lib claims service.config.agent_id)

abbrev is_some {ℓ} : {A : Type ℓ} → Option A → Bool
is_some none = false
is_some (some a) = true

-- The result tests: everything is present, and the lineage is the caller's with a new invocation.
unfoldable pub is_complete : NestedResult → Bool
is_complete r =
    not (r.invocation_id == "")
    && (not (r.root_task_id == "")
        && (not (r.trace_id == "") && (r.status == "succeeded" && is_some r.result)))

unfoldable pub has_lineage : PlatformContext → NestedResult → Bool
has_lineage context r =
    not (r.invocation_id == context.invocation_id)
    && (r.root_task_id == context.root_task_id && r.trace_id == context.trace_id)

unfoldable pub nested_input : Library → Value → Outcome String
nested_input lib value = do
  encoded_value ← or_fail (lib.marshal value) (invalid_params "value must be JSON-compatible")
  or_fail (lib.marshal_fields (("fixture", "\"success\"") ∷ ("value", encoded_value) ∷ []))
      (plain "runtime-b encode nested input failed")

unfoldable pub invoke : Library → NestedService → PlatformContext → Value → Outcome NestedResult
unfolding nested_input is_complete has_lineage
invoke lib service context value = do
  input ← nested_input lib value
  returned ← service.invoker context (record {
    target_agent_id = service.config.target_agent_id;
    capability = service.config.capability;
    input = input;
    stream = false;
  })
  result ← or_fail returned (plain "runtime-b nested result is incomplete")
  guard (is_complete result) (plain "runtime-b nested result is incomplete")
  guard (has_lineage context result) (plain "runtime-b nested result lineage is invalid")
  ok result

-- result.Result as a value of a map[string]any; `invoke` lets no nil through.
abbrev child_result : Option String → Value
child_result none = raw ""
child_result (some r) = raw r

unfoldable pub nested_message : Library → Message → NestedResult → Message
nested_message lib input result = record {
  id = "runtime-b-nested-result-" ++ input.id;
  context_id = context_or_derived lib input.context_id input.id;
  task_id = "";
  role = agent;
  parts =
      data_part
        (some (
          field "agent" (str "runtime-b") (
            field "fixture" (str "nested") (
              field "childInvocationId" (str result.invocation_id)
                (field "childResult" (child_result result.result) end)))))
        none
      ∷ [];
  extensions = [];
  metadata = none;
  reference_tasks = [];
}

-- Only the category of a Router error leaves the agent.
unfoldable pub safe_nested_failure : Error → Error
safe_nested_failure e = elim (as_router_error e) [
  | some code ↦ plain ("runtime-b nested Router failure: " ++ code)
  | none ↦ plain "runtime-b nested invocation failure (unknown category)"
]
