-- ===== src/RuntimeA/Engine.antt =====
-- runtime-a/runtime.go: the run of the agent in the framework, and the agent that the framework runs.
-- The framework (trpc-agent-go) is a parameter: its runner, and the events that it makes. The runner's
-- channel is the list of the events that it delivers before it is closed.
pub mod Reference
pub mod Delivered
use ne_kiro_samples.Base.{
  String, ℕ, Bool, true, false, not, ◌==◌, Option, none, some, List, [], ◌∷◌, Outcome, ok, err,
  panic, Error, plain, wrapped, guard, or_fail, ◌>>=◌, ◌>>◌, if◌then◌else◌,
}
use Prim.Native.String.{◌++◌}
use ne_kiro_samples.Platform.{PlatformContext, Library}
use ne_kiro_samples.RuntimeA.Config.{Config}
use ne_kiro_samples.RuntimeA.Nested.{
  NestedService, decoded_fields, invoke_with_context, combined_result,
}

-- What is read of an *event.Event: IsTerminalError() with the message of its Error, if it has one;
-- the contents of its Response's choices, if it has a Response; IsRunnerCompletion().
pub record Event : Type 0 where
  pub terminal_error : Bool
  pub error : Option String
  pub choices : Option (List String)
  pub completion : Bool

-- model.Response, of which the choices are kept as their contents.
pub record Response : Type 0 where
  pub id : String
  pub object : String
  pub model : String
  pub contents : List String
  pub done : Bool

-- *agent.Invocation
pub record Invocation : Type 0 where
  pub id : String
  pub content : String

-- agent.Agent's Run: the platform context that it finds in its context, and its invocation.
abbrev pub Agent : Type 0
Agent = Option PlatformContext → Option Invocation → Outcome (List Event)

-- runner.NewRunner and its Run: the name of the agent, the agent, the platform context in the context,
-- the user, the session and the text of the message. A delivered event may be nil. The time of a
-- response is left out.
pub record Framework : Type 0 where
  pub run :
      (name : String)
      → Agent
      → PlatformContext
      → (user_id session text : String) → Outcome (List (Option Event))
  pub response_event : (invocation_id author : String) → Response → Event

pub record Engine : Type 0 where
  pub name : String
  pub agent : Agent

-- runtimeAgent.Run
unfoldable pub agent_run : Library → Framework → Config → NestedService → Agent
agent_run lib framework config service context none = err (plain "runtime-a invocation is required")
agent_run lib framework config service none (some invocation) =
    err (plain "runtime-a platform context is required")
agent_run lib framework config service (some context) (some invocation) = do
  input ←
      or_fail (decoded_fields (lib.unmarshal_fields invocation.content))
        (plain "runtime-a invocation input is not a JSON object")
  result ← invoke_with_context service context invocation.content
  combined ← combined_result lib (some result)
  ok (
      framework.response_event invocation.id config.agent_id (record {
        id = "runtime-a-response-" ++ invocation.id;
        object = "chat.completion";
        model = "runtime-a-deterministic";
        contents = combined ∷ [];
        done = true;
      })
      ∷ [])

-- A nil service is `none`.
unfoldable pub new_runtime_engine :
    Library → Framework → Config → Option NestedService → Outcome Engine
new_runtime_engine lib framework config given = do
  service ← or_fail given (plain "runtime-a nested service is required")
  ok (record { name = config.agent_id; agent = agent_run lib framework config service })

-- The inner loop: the last content that is not empty.
unfoldable pub last_content : String → List String → String
last_content content [] = content
last_content content (choice ∷ choices) =
    last_content (if choice == "" then content else choice) choices

abbrev pub response_content : String → Option (List String) → String
response_content content none = content
response_content content (some choices) = last_content content choices

abbrev pub terminal : Option String → Error
terminal (some message) = plain message
terminal none = plain "runtime-a runner returned an execution error"

-- The loop over the events.
unfoldable pub read_events : String → List (Option Event) → Outcome String
unfolding last_content
read_events content [] = ok content
read_events content (none ∷ events) = read_events content events
read_events content (some received ∷ events) =
    let next = response_content content received.choices in
    let rest = read_events next events in
    if received.terminal_error
    then err (terminal received.error)
    else if received.completion
    then ok next
    else rest

abbrev pub runner_started : Outcome (List (Option Event)) → Outcome (List (Option Event))
runner_started (ok events) = ok events
runner_started (err e) = err (wrapped "runtime-a runner: " e)
runner_started (panic m) = panic m

abbrev pub checked_context : Library → PlatformContext → Outcome (Unit {0})
checked_context lib context = elim (lib.validate_context context) [
  | none ↦ ok tt
  | some text ↦ err (plain text)
]

-- json.Unmarshal into a raw message: an error, or a nil message, fails.
abbrev pub decoded_raw : Option (Option String) → Option String
decoded_raw none = none
decoded_raw (some result) = result

unfoldable pub run : Library → Framework → Engine → PlatformContext → String → Outcome String
unfolding read_events
run lib framework engine context input = do
  checked_context lib context
  events ← runner_started (
      framework.run engine.name engine.agent context context.workspace_id context.invocation_id
        input)
  content ← read_events "" events
  guard (not (content == "")) (plain "runtime-a runner returned no result")
  or_fail (decoded_raw (lib.unmarshal_raw content)) (plain "runtime-a runner result is not JSON")
