-- ===== src/RuntimeA/Handler/Failures.antt =====
-- The errors that Runtime A answers with.
use ne_kiro_samples.Base.{
  String, Bool, ◌≡◌, refl, sym, ap, ◌∙◌, subst, ◌==◌, if◌then◌else◌, Option, none, some, Bool-cases,
  Option-cases, inl, inr, Outcome, ok, err, panic, Error, plain, as_router_error, err_inj,
  bind_fails, guard_fails, or_fail_fails,
}
use Prim.Native.String.{◌++◌}
use ne_kiro_samples.A2a.{Fields, Message, SendResult}
use ne_kiro_samples.Platform.{Library, Claims, PlatformContext, RequestMeta}
use ne_kiro_samples.RuntimeA.Nested.{platform_context, root_input, root_input_value}
use ne_kiro_samples.RuntimeA.Nested.Refusals.{
  Refusal, refused_as, platform_context-Refusal, root_input-Refusal, root_input_value-Refusal,
}
use ne_kiro_samples.RuntimeA.Engine.{Framework, run}
use ne_kiro_samples.RuntimeA.Handler.{
  Handler, Context, SendParams, message_of, safe_runtime_failure, safe_run, combined_data,
  combined_or_invalid, send_echo, send_nested, answer, on_send_message,
}

-- The request's own run has failed: in the context of its headers, on the input of its message.
pub record RanInto (lib : Library) (framework : Framework) (h : Handler) (call : Context)
    (params : Option SendParams) (failed : Error) : Type 0 where
  pub meta : Option RequestMeta
  pub managed : call.call ≡ some meta
  pub message : Message
  pub sent : message_of params ≡ some message
  pub context : PlatformContext
  pub from : platform_context lib h.service meta ≡ ok context
  pub input : String
  pub accepted : root_input lib (some message) ≡ ok input
  pub ended : run lib framework h.engine context input ≡ err failed

-- An error that says nothing of what failed behind Runtime A but the Router's code, if there is one.
pub data IsSafe (lib : Library) (framework : Framework) (h : Handler) (call : Context)
    (params : Option SendParams) : Error → Type 0 where
  of_request : {e : Error} → Refusal e → IsSafe lib framework h call params e
  router_failure :
      (code : String) (failed : Error)
      → RanInto lib framework h call params failed
      → as_router_error failed ≡ some code
      → IsSafe lib framework h call params (plain ("runtime-a nested Router failure: " ++ code))
  unknown_failure :
      (failed : Error)
      → RanInto lib framework h call params failed
      → as_router_error failed ≡ none
      → IsSafe lib framework h call params
          (plain "runtime-a nested invocation failure (unknown category)")
  invalid_result : IsSafe lib framework h call params (plain "runtime-a combined result is invalid")

module _ (lib : Library) (framework : Framework) (h : Handler) (call : Context)
    (params : Option SendParams) where
  abbrev Safe : Error → Type 0
  Safe = IsSafe lib framework h call params

  send_echo-Safe : (m : Message) {e : Error} → send_echo lib m ≡ err e → Safe e
  unfolding send_echo
  send_echo-Safe m failed =
      bind_fails (root_input_value lib (some m)) _ failed
        (λ refusal. of_request (root_input_value-Refusal lib (some m) refusal))
        λ value made failed. cc

  safe_run-Safe :
      (ended : Outcome String) {e : Error}
      → ((failed : Error) → ended ≡ err failed → RanInto lib framework h call params failed)
      → safe_run ended ≡ err e
      → Safe e
  unfolding safe_runtime_failure
  safe_run-Safe (ok text) ran failed = cc
  safe_run-Safe (panic m) ran failed = cc
  safe_run-Safe (err failure) ran failed =
      subst Safe (err_inj failed) (categorised (ran failure refl))
    where
      categorised :
          RanInto lib framework h call params failure → Safe (safe_runtime_failure failure)
      categorised ended = elim (Option-cases (as_router_error failure)) [
        | inl none_found ↦
            rw (safe_runtime_failure, none_found) (unknown_failure failure ended none_found)
        | inr (code, found) ↦
            rw (safe_runtime_failure, found) (router_failure code failure ended found)
      ]

  combined_or_invalid-Safe :
      (o : Outcome Fields) {e : Error} → combined_or_invalid o ≡ err e → Safe e
  combined_or_invalid-Safe (ok fields) failed = cc
  combined_or_invalid-Safe (panic m) failed = cc
  combined_or_invalid-Safe (err failure) failed = subst Safe (err_inj failed) invalid_result

  send_nested-Safe :
      (meta : Option RequestMeta) (m : Message) {e : Error}
      → call.call ≡ some meta
      → message_of params ≡ some m
      → send_nested lib framework h meta m ≡ err e
      → Safe e
  unfolding send_nested
  send_nested-Safe meta m managed sent failed =
      bind_fails (platform_context lib h.service meta) _ failed
        (λ refusal. of_request (platform_context-Refusal lib h.service meta refusal))
        λ context made failed.
          bind_fails (root_input lib (some m)) _ failed
            (λ refusal. of_request (root_input-Refusal lib (some m) refusal))
            λ input accepted failed.
              bind_fails (safe_run (run lib framework h.engine context input)) _ failed
                (safe_run-Safe (run lib framework h.engine context input) (λ failure ended. record {
                  meta = meta;
                  managed = managed;
                  message = m;
                  sent = sent;
                  context = context;
                  from = made;
                  input = input;
                  accepted = accepted;
                  ended = ended;
                }))
                λ text ran failed.
                  bind_fails (combined_or_invalid (combined_data lib text)) _ failed
                    (combined_or_invalid-Safe (combined_data lib text))
                    λ fields extracted failed. cc

  answer-Safe :
      (c : Claims) (meta : Option RequestMeta) (m : Message) {e : Error}
      → call.call ≡ some meta
      → message_of params ≡ some m
      → answer lib framework h c meta m ≡ err e
      → Safe e
  answer-Safe c meta m managed sent failed = elim (Bool-cases (c.capability == "runtime.echo")) [
    | inl echo ↦ send_echo-Safe m (sym (ap branch echo) ∙ failed)
    | inr nested ↦ send_nested-Safe meta m managed sent (sym (ap branch nested) ∙ failed)
  ]
    where
      branch : Bool → Outcome SendResult
      branch b = if b then send_echo lib m else send_nested lib framework h meta m

  -- Every error of message/send is a refusal of the request's parameters, one of five fixed texts, or
  -- the code of the Router's error that the request's own run ended in; the text for an unknown failure
  -- comes only where that error has no such code.
  pub on_send_message-IsSafe :
      (e : Error)
      → on_send_message lib framework h call params ≡ err e
      → IsSafe lib framework h call params e
  unfolding on_send_message
  on_send_message-IsSafe e failed =
      or_fail_fails (message_of params) _ _ failed (λ missing same. of_request (refused_as same))
        λ message sent failed.
          or_fail_fails call.call _ _ failed (λ missing same. of_request (refused_as same))
            λ meta managed failed.
              or_fail_fails call.claims _ _ failed (λ missing same. of_request (refused_as same))
                λ claims credential failed.
                  guard_fails (claims.agent_id == h.config.agent_id) _ _ failed
                    (λ missing same. of_request (refused_as same))
                    λ own failed. answer-Safe claims meta message managed sent failed
