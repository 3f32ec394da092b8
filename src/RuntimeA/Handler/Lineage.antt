-- ===== src/RuntimeA/Handler/Lineage.antt =====
-- A nested call of Runtime A: what a successful answer rests on.
use ne_kiro_samples.Base.{
  ok_inj, String, true, false, not, ◌≡◌, ◌≢◌, ◌⊎◌, inl, inr, refl, sym, ap, ◌∙◌, subst, ◌==◌,
  Option, none, some, List, [], ◌∷◌, Outcome, ok, err, panic, bind_then, guard_then, or_fail_then,
  or_fail-eq-ok, arith, eq_iff, text_ne,
}
use ne_kiro_samples.A2a.{Fields, Message, SendResult, sent_message}
use ne_kiro_samples.Platform.{
  Library, Claims, Invoker, Profile, PlatformContext, NestedResult, RequestMeta,
}
use ne_kiro_samples.RuntimeA.Config.{Config, Environment, validate}
use ne_kiro_samples.RuntimeA.Nested.{
  NestedService, new_nested_service, invoke_with_context, combined_result, platform_context,
  root_input, decoded_fields,
}
use ne_kiro_samples.RuntimeA.Nested.Input.{Accepts, root_input_iff}
use ne_kiro_samples.RuntimeA.Nested.Headers.{FromHeaders, platform_context_iff}
use ne_kiro_samples.RuntimeA.Engine.{
  Event, Response, Framework, Engine, new_runtime_engine, agent_run, read_events, run,
  runner_started, checked_context, decoded_raw,
}
use ne_kiro_samples.RuntimeA.Engine.Reference.{texts}
use ne_kiro_samples.RuntimeA.Engine.Delivered.{In, Said, EmptyOr, Faithful, read_events-from}
use ne_kiro_samples.RuntimeA.Handler.{
  Handler, new_handler_with_invoker, on_send_message, send_nested, combined_data,
  combined_or_invalid, result_message, safe_run,
}
use ne_kiro_samples.RuntimeA.Handler.Echo.{request, params_of, on_send_message-answer}
use ne_kiro_samples.RuntimeA.Handler.Combined.{Combines, combined_result-Combines}

-- The nested call under a combined result: a call of the Router with the configured target and
-- capability, whose result is of a new invocation and is what the text combines.
pub record Child (lib : Library) (service : NestedService) (context : PlatformContext)
    (input combined : String) : Type 0 where
  pub result : NestedResult
  pub called :
      service.invoker context (record {
        target_agent_id = service.config.target_agent_id;
        capability = service.config.capability;
        input = input;
        stream = false;
      })
      ≡ ok (some result)
  pub new_child : result.invocation_id ≢ context.invocation_id
  pub combines : Combines lib result combined

invoke_with_context-Child :
    (lib : Library) (service : NestedService) (context : PlatformContext) (input combined : String)
    {result : NestedResult}
    → invoke_with_context service context input ≡ ok result
    → combined_result lib (some result) ≡ ok combined
    → Child lib service context input combined
unfolding invoke_with_context
invoke_with_context-Child lib service context input combined {result} e made =
    bind_then
      (service.invoker context (record {
        target_agent_id = service.config.target_agent_id;
        capability = service.config.capability;
        input = input;
        stream = false;
      }))
      _ e
      λ returned called e. or_fail_then returned _ _ e λ r given e.
        guard_then (not (r.invocation_id == "")) _ _ e λ named e.
          guard_then (not (r.invocation_id == context.invocation_id)) _ _ e λ other e. record {
            result = r;
            called = called ∙ ap ok given;
            new_child = λ same. ground (arith, eq_iff r.invocation_id context.invocation_id);
            combines =
                combined_result-Combines lib r combined
                  (ap (λ r. combined_result lib (some r)) (ok_inj e) ∙ made);
          }

same_content :
    (e : Event) {combined c : String}
    → e.choices ≡ some (combined ∷ [])
    → Said c (e ∷ [])
    → combined ≡ c
same_content e one (inr none_said) = absurd none_said
same_content e {c} one (inl said) = only (subst (λ o. In c (texts o)) one said)
  where
    only : {combined : String} → In c (combined ∷ []) → combined ≡ c
    only (inl same) = sym same
    only (inr none_said) = absurd none_said

same_response :
    {framework : Framework} (faithful : Faithful framework) (id author : String) (r : Response)
    {combined c : String} {sent : List Event}
    → r.contents ≡ combined ∷ []
    → ok (framework.response_event id author r ∷ []) ≡ ok sent
    → Said c sent
    → combined ≡ c
same_response {framework} faithful id author r {c} {sent} contents e said =
    same_content (framework.response_event id author r)
      (faithful.responds id author r ∙ ap some contents) (subst (Said c) (sym (ok_inj e)) said)

runner_started-eq-ok :
    (o : Outcome (List (Option Event))) {events : List (Option Event)}
    → runner_started o ≡ ok events
    → o ≡ ok events
runner_started-eq-ok (ok delivered) e = cc
runner_started-eq-ok (err failed) e = cc
runner_started-eq-ok (panic m) e = cc

decoded_raw-eq-some :
    (o : Option (Option String)) {text : String} → decoded_raw o ≡ some text → o ≡ some (some text)
decoded_raw-eq-some none e = cc
decoded_raw-eq-some (some given) e = cc

module _ (lib : Library) (framework : Framework) (faithful : Faithful framework) (config : Config)
    (service : NestedService) where
  agent_run-Child :
      (context : PlatformContext) (id text : String) (sent : List Event) (c : String)
      → agent_run lib framework config service
          (some context)
          (some (record { id = id; content = text }))
        ≡ ok sent
      → Said c sent
      → Child lib service context text c
  unfolding agent_run
  agent_run-Child context id text sent c e said =
      or_fail_then (decoded_fields (lib.unmarshal_fields text)) _ _ e λ fields decoded e.
        bind_then (invoke_with_context service context text) _ e λ result invoked e.
          bind_then (combined_result lib (some result)) _ e λ combined made e.
            invoke_with_context-Child lib service context text c invoked
              (made ∙ ap ok (same_response faithful id config.agent_id _ refl e said))

  run-Child :
      (engine : Engine) (context : PlatformContext) (input text : String)
      → engine.agent ≡ agent_run lib framework config service
      → run lib framework engine context input ≡ ok text
      → (c : String) × Child lib service context input c × (lib.unmarshal_raw c ≡ some (some text))
  unfolding run
  run-Child engine context input text ours e =
      bind_then (checked_context lib context) _ e λ valid checked e.
        bind_then (runner_started _) _ e λ events started e.
          bind_then (read_events "" events) _ e λ c read e.
            guard_then (not (c == "")) _ _ e λ filled e.
              let (id, sent, agent, only) =
                faithful.delivers engine.name engine.agent context context.workspace_id
                  context.invocation_id input events (runner_started-eq-ok _ started) in
              let said =
                of_agent sent filled
                  (read_events-from (EmptyOr sent) events (inl refl) only read) in
              (
                c,
                from_agent c id sent agent said,
                decoded_raw-eq-some _ (or_fail-eq-ok (decoded_raw (lib.unmarshal_raw c)) _ e),
              )
    where
      of_agent :
          (sent : List Event) {c : String} → not (c == "") ≡ true → EmptyOr sent c → Said c sent
      of_agent sent filled (inr said) = said
      of_agent sent {c} filled (inl empty) = ground (arith, eq_iff c "")

      from_agent :
          (c id : String) (sent : List Event)
          → (engine.agent (some context) (some (record { id = id; content = input })) ≡ ok sent)
            ⊎ (sent ≡ [])
          → Said c sent
          → Child lib service context input c
      from_agent c id sent (inl ran) said =
          agent_run-Child context id input sent c
            (sym (
                ap (λ agent. agent (some context) (some (record { id = id; content = input })))
                  ours)
              ∙ ran)
            said
      from_agent c id sent (inr silent) said = absurd (subst (Said c) silent said)

-- What an answer to a nested call rests on: the context of the headers, the input of the message, a
-- call through the Router, and the combined result that the answer carries.
pub record NestedAnswer (lib : Library) (h : Handler) (meta : Option RequestMeta) (m : Message)
    (r : SendResult) : Type 0 where
  pub headers : RequestMeta
  pub managed : meta ≡ some headers
  pub context : PlatformContext
  pub from : FromHeaders lib h.service headers context
  pub input : String
  pub accepted : Accepts lib m input
  pub combined : String
  pub child : Child lib h.service context input combined
  pub text : String
  pub decoded : lib.unmarshal_raw combined ≡ some (some text)
  pub fields : Fields
  pub extracted : combined_data lib text ≡ ok fields
  pub answered : r ≡ sent_message (result_message m fields)

safe_run-eq-ok : (o : Outcome String) {text : String} → safe_run o ≡ ok text → o ≡ ok text
safe_run-eq-ok (ok t) e = cc
safe_run-eq-ok (err failed) e = cc
safe_run-eq-ok (panic m) e = cc

combined_or_invalid-eq-ok :
    (o : Outcome Fields) {fields : Fields} → combined_or_invalid o ≡ ok fields → o ≡ ok fields
combined_or_invalid-eq-ok (ok t) e = cc
combined_or_invalid-eq-ok (err failed) e = cc
combined_or_invalid-eq-ok (panic m) e = cc

platform_context-managed :
    (lib : Library) (service : NestedService) (meta : Option RequestMeta)
    {context : PlatformContext}
    → platform_context lib service meta ≡ ok context
    → (headers : RequestMeta) × (meta ≡ some headers) × FromHeaders lib service headers context
unfolding platform_context
platform_context-managed lib service none e = cc
platform_context-managed lib service (some headers) e =
    (headers, refl, (platform_context_iff lib service headers _).0 e)

send_nested-NestedAnswer :
    (lib : Library) (framework : Framework) (h : Handler) (meta : Option RequestMeta) (m : Message)
    {r : SendResult}
    → Faithful framework
    → h.engine.agent ≡ agent_run lib framework h.config h.service
    → send_nested lib framework h meta m ≡ ok r
    → NestedAnswer lib h meta m r
unfolding send_nested
send_nested-NestedAnswer lib framework h meta m {r} faithful ours e =
    bind_then (platform_context lib h.service meta) _ e λ context made e.
      bind_then (root_input lib (some m)) _ e λ input accepted e.
        bind_then (safe_run (run lib framework h.engine context input)) _ e λ text ran e.
          bind_then (combined_or_invalid (combined_data lib text)) _ e λ fields extracted e.
            let (headers, managed, from) = platform_context-managed lib h.service meta made in
            let (combined, child, decoded) =
              run-Child lib framework faithful h.config h.service h.engine context input text ours
                (safe_run-eq-ok _ ran) in
            record {
              headers = headers;
              managed = managed;
              context = context;
              from = from;
              input = input;
              accepted = (root_input_iff lib m input).0 accepted;
              combined = combined;
              child = child;
              text = text;
              decoded = decoded;
              fields = fields;
              extracted = combined_or_invalid-eq-ok _ extracted;
              answered = sym (ok_inj e);
            }

-- The agent of a new handler is the one that runs its own settings and service.
pub new_handler-agent :
    (env : Environment) (lib : Library) (framework : Framework) (loaded : Outcome Profile)
    (config : Config) (given : Option Invoker) {h : Handler}
    → new_handler_with_invoker env lib framework loaded config given ≡ ok h
    → h.engine.agent ≡ agent_run lib framework h.config h.service
unfolding new_handler_with_invoker new_runtime_engine
new_handler-agent env lib framework loaded config given e =
    bind_then (validate env config) _ e λ valid checked e.
      bind_then (new_nested_service loaded config given) _ e λ service made e.
        subst (λ h. h.engine.agent ≡ agent_run lib framework h.config h.service) (ok_inj e) refl

-- Under a faithful framework, an answer of a new handler to claims of its agent for a capability other
-- than runtime.echo rests on the headers, the message, and a call of the target through the Router,
-- whose result belongs to an invocation other than the request's own and is the one that the answer
-- combines.
pub on_send_message-NestedAnswer :
    (env : Environment) (lib : Library) (framework : Framework) (loaded : Outcome Profile)
    (config : Config) (given : Option Invoker) (h : Handler) (c : Claims)
    (meta : Option RequestMeta) (m : Message) (r : SendResult)
    → Faithful framework
    → new_handler_with_invoker env lib framework loaded config given ≡ ok h
    → c.agent_id ≡ h.config.agent_id
    → c.capability ≢ "runtime.echo"
    → on_send_message lib framework h (request c meta) (params_of m) ≡ ok r
    → NestedAnswer lib h meta m r
on_send_message-NestedAnswer env lib framework loaded config given h c meta m r faithful new own
      nested e =
    send_nested-NestedAnswer lib framework h meta m faithful
      (new_handler-agent env lib framework loaded config given new)
      (sym (on_send_message-answer lib framework h c meta m own ∙ rw (text_ne nested) refl) ∙ e)
