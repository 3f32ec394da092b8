-- ===== src/RuntimeB/Send/Lineage.antt =====
-- A nested call through the Router keeps the caller's lineage: what a successful answer rests on.
use ne_kiro_samples.Base.{
  String, true, false, ◌≡◌, refl, sym, ◌∙◌, ap, ◌≢◌, Option, none, some, arith, eq_iff, Outcome, ok,
  err, panic, bind_then, guard_then, or_fail_then,
}
use ne_kiro_samples.A2a.{Value, Message, SendResult, sent_message}
use ne_kiro_samples.Platform.{Library, Claims, PlatformContext, NestedRequest, NestedResult}
use ne_kiro_samples.RuntimeB.Nested.{
  NestedService, platform_context, is_complete, has_lineage, nested_input, invoke, nested_message,
}
use ne_kiro_samples.RuntimeB.Send.{send_nested, safe_invocation}

-- The platform context of a credential.
abbrev pub context_of : Claims → PlatformContext
context_of c = record {
  invocation_id = c.invocation_id;
  root_task_id = c.root_task_id;
  trace_id = c.trace_id;
  workspace_id = c.workspace_id;
  agent_id = c.agent_id;
}

-- The request that the samples make of the Router: its target and capability are the configured
-- ones, whatever the message says.
abbrev pub request_to : NestedService → String → NestedRequest
request_to service input = record {
  target_agent_id = service.config.target_agent_id;
  capability = service.config.capability;
  input = input;
  stream = false;
}

pub record Lineage (service : NestedService) (c : Claims) (input : String) (r : NestedResult)
    : Type 0 where
  pub this_agent : c.agent_id ≡ service.config.agent_id
  pub returned : service.invoker (context_of c) (request_to service input) ≡ ok (some r)
  pub new_invocation : r.invocation_id ≢ c.invocation_id
  pub named : r.invocation_id ≢ ""
  pub same_root : r.root_task_id ≡ c.root_task_id
  pub same_trace : r.trace_id ≡ c.trace_id
  pub succeeded : r.status ≡ "succeeded"
  pub has_result : r.result ≢ none

pub platform_context-eq-ok :
    (lib : Library) (service : NestedService) (claims : Option Claims) {context : PlatformContext}
    → platform_context lib service claims ≡ ok context
    → (c : Claims) × (claims ≡ some c)
      × (c.agent_id ≡ service.config.agent_id)
      × (context_of c ≡ context)
unfolding platform_context
platform_context-eq-ok lib service none e = cc
platform_context-eq-ok lib service (some c) e = (
  c,
  refl,
  ground (arith, eq_iff c.agent_id service.config.agent_id),
  ground (arith, eq_iff c.agent_id service.config.agent_id),
)

invoke-eq-ok :
    (lib : Library) (service : NestedService) (context : PlatformContext) (value : Value)
    {r : NestedResult}
    → invoke lib service context value ≡ ok r
    → (input : String) × (nested_input lib value ≡ ok input)
      × (service.invoker context (request_to service input) ≡ ok (some r))
      × (is_complete r ≡ true)
      × (has_lineage context r ≡ true)
unfolding invoke
invoke-eq-ok lib service context value {r} e =
    bind_then (nested_input lib value) _ e λ input encoded e.
      bind_then (service.invoker context (request_to service input)) _ e λ returned there e.
        or_fail_then returned _ _ e λ r' given e. guard_then (is_complete r') _ _ e λ complete e.
          guard_then (has_lineage context r') _ _ e λ lineage e.
            let same = same_result r' r e in
            (
              input,
              encoded,
              there ∙ ap ok (given ∙ ap some same),
              ap is_complete (sym same) ∙ complete,
              ap (has_lineage context) (sym same) ∙ lineage,
            )
  where
    same_result : (a b : NestedResult) → ◌≡◌ {A = Outcome NestedResult} (ok a) (ok b) → a ≡ b
    same_result a b q = cc

complete-facts :
    (r : NestedResult)
    → is_complete r ≡ true
    → (r.invocation_id ≢ "") × (r.status ≡ "succeeded") × (r.result ≢ none)
unfolding is_complete
complete-facts r e = ground (
  arith,
  eq_iff r.invocation_id "",
  eq_iff r.root_task_id "",
  eq_iff r.trace_id "",
  eq_iff r.status "succeeded",
)

lineage-facts :
    (context : PlatformContext) (r : NestedResult)
    → has_lineage context r ≡ true
    → (r.invocation_id ≢ context.invocation_id)
      × (r.root_task_id ≡ context.root_task_id)
      × (r.trace_id ≡ context.trace_id)
unfolding has_lineage
lineage-facts context r e = ground (
  arith,
  eq_iff r.invocation_id context.invocation_id,
  eq_iff r.root_task_id context.root_task_id,
  eq_iff r.trace_id context.trace_id,
)

safe_invocation-eq-ok {ℓ} :
    {A : Type ℓ} (o : Outcome A) {a : A} → safe_invocation o ≡ ok a → o ≡ ok a
safe_invocation-eq-ok (ok b) e = e
safe_invocation-eq-ok (err x) e = cc
safe_invocation-eq-ok (panic m) e = cc

nested-Lineage :
    (lib : Library) (service : NestedService) (c : Claims) (context : PlatformContext)
    (value : Value) (r : NestedResult)
    → c.agent_id ≡ service.config.agent_id
    → context_of c ≡ context
    → invoke lib service context value ≡ ok r
    → (input : String) × (nested_input lib value ≡ ok input) × Lineage service c input r
nested-Lineage lib service c context value r agent is_context e =
    let (input, encoded, returned, complete, lineage) =
      invoke-eq-ok lib service (context_of c) value
        (ap (λ x. invoke lib service x value) is_context ∙ e) in
    let (named, succeeded, has_result) = complete-facts r complete in
    let (new_invocation, same_root, same_trace) = lineage-facts (context_of c) r lineage in
    (
      input,
      encoded,
      record {
        this_agent = agent;
        returned = returned;
        new_invocation = new_invocation;
        named = named;
        same_root = same_root;
        same_trace = same_trace;
        succeeded = succeeded;
        has_result = has_result;
      },
    )

-- When the nested fixture answers, the caller's credential named this agent, the Router was asked
-- for the configured target and capability with the encoded value as its only input, and the
-- answer reports a succeeded invocation with a new id under the caller's root task and trace.
pub send_nested-Lineage :
    (lib : Library) (service : NestedService) (claims : Option Claims) (message : Message)
    (value : Value) (answer : SendResult)
    → send_nested lib (some service) claims message value ≡ ok answer
    → (c : Claims) × (input : String) × (r : NestedResult) × (claims ≡ some c)
      × (nested_input lib value ≡ ok input)
      × Lineage service c input r
      × (answer ≡ sent_message (nested_message lib message r))
unfolding send_nested
send_nested-Lineage lib service claims message value answer e =
    bind_then (platform_context lib service claims) _ e λ context known e.
      bind_then (safe_invocation (invoke lib service context value)) _ e λ r invoked e.
        let (c, present, agent, is_context) = platform_context-eq-ok lib service claims known in
        let (input, encoded, lineage) =
          nested-Lineage lib service c context value r agent is_context
            (safe_invocation-eq-ok (invoke lib service context value) invoked) in
        (
          c,
          input,
          r,
          present,
          encoded,
          lineage,
          same_answer (sent_message (nested_message lib message r)) answer e,
        )
  where
    same_answer : (a b : SendResult) → ◌≡◌ {A = Outcome SendResult} (ok a) (ok b) → b ≡ a
    same_answer a b q = cc
