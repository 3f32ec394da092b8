-- ===== src/RuntimeA/Handler/Answers.antt =====
-- A nested call of Runtime A: when it is answered.
use ne_kiro_samples.Base.{
  String, true, ◌≡◌, ◌≢◌, refl, ap, ◌∙◌, Option, none, some, List, [], ◌∷◌, Outcome, ok, text_ne,
}
use Prim.Native.String.{◌++◌}
use mathlib.Core.Path.{ap₂}
use ne_kiro_samples.A2a.{Fields, Message, sent_message}
use ne_kiro_samples.Platform.{Library, Claims, Invoker, Profile, PlatformContext, RequestMeta}
use ne_kiro_samples.RuntimeA.Config.{Config, Environment}
use ne_kiro_samples.RuntimeA.Nested.{NestedService, invoke_with_context, decoded_fields}
use ne_kiro_samples.RuntimeA.Nested.Input.{Accepts, InputsDecode, root_input_iff}
use ne_kiro_samples.RuntimeA.Nested.Headers.{FromHeaders, platform_context_iff}
use ne_kiro_samples.RuntimeA.Engine.{
  Event, Response, Agent, Framework, Engine, agent_run, read_events, run, checked_context,
}
use ne_kiro_samples.RuntimeA.Engine.Reference.{
  seen, first_error, all_contents, last_filled, verdict, read_events-eq-reference,
}
use ne_kiro_samples.RuntimeA.Handler.{
  Handler, new_handler_with_invoker, on_send_message, send_nested, combined_data, result_message,
}
use ne_kiro_samples.RuntimeA.Handler.Echo.{
  request, params_of, agent_message, on_send_message-answer,
}
use ne_kiro_samples.RuntimeA.Handler.Combined.{
  raw_fields, ObjectsDecode, Combines-combined_result, Combines-ReadBack,
}
use ne_kiro_samples.RuntimeA.Handler.Lineage.{Child, new_handler-agent}

-- What the samples rely on of the framework for an answer: if the agent sends one response of one content
-- in each invocation, the runner delivers events that hold this content alone, and no error, up to the
-- completion.
abbrev pub Completes : Framework → Type 0
Completes framework =
    (name : String) (agent : Agent) (context : PlatformContext)
    (user_id session text content : String)
    → ((id : String)
        → (author : String) × (r : Response) × (agent (some context)
              (some (record { id = id; content = text }))
            ≡ ok (framework.response_event id author r ∷ []))
          × (r.contents ≡ content ∷ []))
    → (events : List (Option Event)) × (framework.run name agent context user_id session text
        ≡ ok events)
      × (first_error (seen events) ≡ none)
      × (all_contents (seen events) ≡ content ∷ [])

abbrev agent_response : (id content : String) → Response
agent_response id content = record {
  id = "runtime-a-response-" ++ id;
  object = "chat.completion";
  model = "runtime-a-deterministic";
  contents = content ∷ [];
  done = true;
}

last_filled_one : (text : String) → last_filled (text ∷ []) ≡ text
unfolding last_filled
last_filled_one text = refl

read_events-completes :
    (events : List (Option Event)) (content : String)
    → first_error (seen events) ≡ none
    → all_contents (seen events) ≡ content ∷ []
    → read_events "" events ≡ ok content
read_events-completes events content calm one =
    read_events-eq-reference events
    ∙ ap₂ verdict calm (ap last_filled one ∙ last_filled_one content)

module _ (lib : Library) (framework : Framework) (completes : Completes framework)
    (objects_decode : ObjectsDecode lib) (config : Config) (service : NestedService)
    (context : PlatformContext) (input combined : String) (fields : List (String × String))
    (decoded : decoded_fields (lib.unmarshal_fields input) ≡ some fields)
    (c : Child lib service context input combined) where
  invoked : invoke_with_context service context input ≡ ok c.result
  unfolding invoke_with_context
  invoked = rw (c.called, text_ne c.combines.named, text_ne c.new_child) refl

  agent_answers :
      (id : String)
      → (author : String) × (r : Response) × (agent_run lib framework config service
            (some context)
            (some (record { id = id; content = input }))
          ≡ ok (framework.response_event id author r ∷ []))
        × (r.contents ≡ combined ∷ [])
  unfolding agent_run
  agent_answers id = (
    config.agent_id,
    agent_response id combined,
    rw (decoded, invoked, Combines-combined_result lib c.result combined c.combines) refl,
    refl,
  )

  run_answers :
      (engine : Engine)
      → engine.agent ≡ agent_run lib framework config service
      → lib.validate_context context ≡ none
      → run lib framework engine context input ≡ ok combined
  unfolding run
  run_answers engine ours valid =
      let back = Combines-ReadBack lib c.result combined objects_decode c.combines in
      let (events, ran, calm, one) =
        completes engine.name engine.agent context context.workspace_id context.invocation_id input
          combined (rw ours agent_answers) in
      let checked : checked_context lib context ≡ ok tt = rw (valid, checked_context) refl in
      rw (checked, ran, read_events-completes events combined calm one, text_ne back.0)
        (rw back.1 refl)

-- If inputs and JSON objects decode and the framework completes its runs, then a new handler answers
-- claims of its agent for a capability other than runtime.echo whenever the headers give a context, the
-- message is accepted, and the Router's call with the accepted input succeeds with a full result of a
-- new invocation that JSON carries: the answer is a message of the agent under an id made of the
-- request's, in the request's context, with one data part of three raw fields, which are read as the
-- agent "runtime-a", the child's invocation id and the JSON value of the child's result.
pub on_send_message_answers :
    (env : Environment) (lib : Library) (framework : Framework) (loaded : Outcome Profile)
    (config : Config) (given : Option Invoker) (h : Handler) (c : Claims) (meta : RequestMeta)
    (m : Message) (context : PlatformContext) (input combined : String)
    → InputsDecode lib
    → ObjectsDecode lib
    → Completes framework
    → new_handler_with_invoker env lib framework loaded config given ≡ ok h
    → c.agent_id ≡ h.config.agent_id
    → c.capability ≢ "runtime.echo"
    → FromHeaders lib h.service meta context
    → Accepts lib m input
    → (call : Child lib h.service context input combined)
    → (agent_text id_text result_text child_result : String) × (on_send_message lib framework h
          (request c (some meta))
          (params_of m)
        ≡ ok (
            sent_message (
              agent_message
                ("runtime-a-result-" ++ m.id)
                m.context_id
                (raw_fields agent_text id_text result_text))))
      × (lib.unmarshal_string agent_text ≡ some "runtime-a")
      × (lib.unmarshal_string id_text ≡ some call.result.invocation_id)
      × (call.result.result ≡ some child_result)
      × (lib.unmarshal result_text ≡ lib.unmarshal child_result)
unfolding send_nested result_message
on_send_message_answers env lib framework loaded config given h c meta m context input combined
      inputs decodes completes new own nested from accepted call =
    let back = Combines-ReadBack lib call.result combined decodes call.combines in
    let input_fields_there =
      (inputs accepted.given accepted.encoded input accepted.marshalled accepted.carried).0 in
    let ran =
      run_answers lib framework completes decodes h.config h.service context input combined
        (("fixture", "\"success\"") ∷ ("value", accepted.encoded) ∷ [])
        (ap decoded_fields input_fields_there) call h.engine
        (new_handler-agent env lib framework loaded config given new) from.valid in
    (
      back.2,
      back.3,
      back.4,
      back.5,
      on_send_message-answer lib framework h c (some meta) m own
          ∙ (rw (text_ne nested) refl ∙ nested_answers ran back.6),
      back.7,
      back.8,
      back.9,
      back.10,
    )
  where
    nested_answers :
        {fields : Fields}
        → run lib framework h.engine context input ≡ ok combined
        → combined_data lib combined ≡ ok fields
        → send_nested lib framework h (some meta) m
          ≡ ok (sent_message (agent_message ("runtime-a-result-" ++ m.id) m.context_id fields))
    nested_answers ran extracted =
        rw
          (
            (platform_context_iff lib h.service meta context).1 from,
            (root_input_iff lib m input).1 accepted,
            ran,
            extracted,
          )
          refl
