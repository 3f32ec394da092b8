-- ===== src/RuntimeB/Send/Failures.antt =====
-- The errors of message/send (runtime-b/handler.go, runtime-b/nested.go), step by step.
use ne_kiro_samples.Base.{
  String, ◌≡◌, inl, inr, refl, sym, ap, ◌∙◌, subst, ◌==◌, Option, none, some, [], ◌∷◌, Outcome, ok,
  err, panic, Error, plain, as_router_error, err_inj, Option-cases, Bool-cases, eq_iff, bind_fails,
  guard_fails, or_fail_fails, or_fail-eq-err, or_fail-eq-ok, or_fail_then, arith,
}
use ne_kiro_samples.A2a.{Value, null, bool, int, str, raw, arr, obj, opaque, Message}
use ne_kiro_samples.Platform.{Library, Claims, NestedResult}
use ne_kiro_samples.RuntimeB.Fixture.{
  FixtureKind, success, stream_success, failure, protocol, hold, cancel_observed, interrupted,
  nested, FixtureRequest, SendParams, parse_fixture,
}
use ne_kiro_samples.RuntimeB.Clone.{clone_message}
use ne_kiro_samples.RuntimeB.Clone.Errors.{clone_message_never_fails}
use ne_kiro_samples.RuntimeB.Fixture.Refusals.{parse_fixture-IsRefusal}
use ne_kiro_samples.RuntimeB.Handler.{Handler}
use ne_kiro_samples.RuntimeB.Nested.{
  NestedService, validated, platform_context, platform_context_from_claims, nested_input, invoke,
  is_complete, has_lineage, safe_nested_failure,
}
use ne_kiro_samples.RuntimeB.Send.{
  on_send_message, dispatch_send, observe_cancellation, send_nested, safe_invocation, protocol_task,
  send_parsed,
}
use ne_kiro_samples.RuntimeB.Send.Lineage.{context_of, request_to, platform_context-eq-ok}
use ne_kiro_samples.RuntimeB.Send.Safe.{
  Reads, Calls, RouterFailed, IsSafeError, unread, failing, for_streams, unsupported, unmarked,
  unconfigured, no_credential, foreign_credential, invalid_context, router_failure, unknown_failure,
}

module _ (lib : Library) (h : Handler) (claims : Option Claims) (params : Option SendParams) where
  abbrev SafeError : Error → Type 0
  SafeError = IsSafeError lib h claims params

  marked :
      (message : Message) (value : Value)
      → Reads lib params cancel_observed value
      → {e : Error} → (observe_cancellation lib h claims message value).1 ≡ err e
      → SafeError e
  unfolding observe_cancellation
  marked message (str marker) read failed = elim (Bool-cases (marker == "")) [
    | inl empty ↦
        subst SafeError (err_inj (rw empty at failed))
          (unmarked (str marker) read (λ s q. sym (str_inj q) ∙ (eq_iff marker "").0 empty))
    | inr given ↦ let clash = rw given at failed in cc
  ]
    where
      str_inj : {s t : String} → str s ≡ str t → s ≡ t
      str_inj q = cc
  marked message null read failed = subst SafeError (err_inj failed) (unmarked _ read (λ s q. cc))
  marked message (bool b) read failed =
      subst SafeError (err_inj failed) (unmarked _ read (λ s q. cc))
  marked message (int n) read failed =
      subst SafeError (err_inj failed) (unmarked _ read (λ s q. cc))
  marked message (raw s) read failed =
      subst SafeError (err_inj failed) (unmarked _ read (λ s q. cc))
  marked message (arr xs) read failed =
      subst SafeError (err_inj failed) (unmarked _ read (λ s q. cc))
  marked message (obj fs) read failed =
      subst SafeError (err_inj failed) (unmarked _ read (λ s q. cc))
  marked message (opaque n) read failed =
      subst SafeError (err_inj failed) (unmarked _ read (λ s q. cc))

  uncoded :
      (failed : Error) {x : Error} {code : String}
      → as_router_error failed ≡ none
      → failed ≡ x
      → as_router_error x ≡ some code
      → ⊥
  uncoded failed plainly q coded = let same = ap as_router_error q in cc

  invoke-RouterFailed :
      (c : Calls lib h claims params) (x : Error) (code : String)
      → invoke lib c.service (context_of c.credential) c.value ≡ err x
      → as_router_error x ≡ some code
      → RouterFailed lib h claims params x
  unfolding invoke nested_input
  invoke-RouterFailed c x code failed coded =
      bind_fails (nested_input lib c.value) _ failed
        (λ q.
          or_fail_fails (lib.marshal c.value) _ _ q (λ _ r. absurd (uncoded _ refl r coded))
            λ encoded _ q. absurd (
              uncoded (plain "runtime-b encode nested input failed") refl
                (or_fail-eq-err
                  (lib.marshal_fields (("fixture", "\"success\"") ∷ ("value", encoded) ∷ [])) _ q)
                coded))
        λ input written failed.
          bind_fails (c.service.invoker (context_of c.credential) (request_to c.service input)) _
            failed
            (λ refused. or_fail_then (lib.marshal c.value) _ _ written λ encoded marshalled q.
              record {
                call = c;
                encoded = encoded;
                marshalled = marshalled;
                input = input;
                carried = or_fail-eq-ok _ _ q;
                refused = refused;
              })
            λ returned _ failed.
              or_fail_fails returned _ _ failed (λ _ r. absurd (uncoded _ refl r coded))
                λ result _ failed.
                  guard_fails (is_complete result) _ _ failed
                    (λ _ r. absurd (uncoded _ refl r coded))
                    λ _ failed.
                      guard_fails (has_lineage (context_of c.credential) result) _ _ failed
                        (λ _ r. absurd (uncoded _ refl r coded)) λ _ failed. cc

  invoked-IsSafeError :
      (c : Calls lib h claims params) (o : Outcome NestedResult)
      → invoke lib c.service (context_of c.credential) c.value ≡ o
      → {e : Error} → safe_invocation o ≡ err e
      → SafeError e
  unfolding safe_nested_failure
  invoked-IsSafeError c (ok r) ran failed = cc
  invoked-IsSafeError c (panic m) ran failed = cc
  invoked-IsSafeError c (err x) ran failed =
      subst SafeError (err_inj failed) (elim (Option-cases (as_router_error x)) [
        | inl none_found ↦ rw (safe_nested_failure, none_found) (unknown_failure c x ran none_found)
        | inr (code, coded) ↦
            rw (safe_nested_failure, coded)
              (router_failure code x (invoke-RouterFailed c x code ran coded) coded)
      ])

  context-IsSafeError :
      (value : Value) (service : NestedService) (given : Option Claims)
      → Reads lib params nested value
      → h.nested ≡ some service
      → claims ≡ given
      → {e : Error} → platform_context lib service given ≡ err e
      → SafeError e
  unfolding platform_context platform_context_from_claims
  context-IsSafeError value service none read configured given failed =
      subst SafeError (err_inj failed) (no_credential value read given)
  context-IsSafeError value service (some c) read configured given failed =
      elim (Bool-cases (c.agent_id == service.config.agent_id)) [
        | inr foreign ↦ subst SafeError (err_inj (rw foreign at failed)) (
            foreign_credential value service c read configured given
              (λ own. ground (arith, eq_iff c.agent_id service.config.agent_id)))
        | inl own ↦ elim (Option-cases (lib.validate_context (context_of c))) [
          | inl valid ↦ let clash = rw (own, validated, valid) at failed in cc
          | inr (text, invalid) ↦
              subst SafeError (err_inj (rw (own, validated, invalid) at failed)) (
                invalid_context
                  (record {
                    value = value;
                    read = read;
                    service = service;
                    configured = configured;
                    credential = c;
                    given = given;
                    own = (eq_iff c.agent_id service.config.agent_id).0 own;
                  })
                  text invalid)
        ]
      ]

  nested-IsSafeError :
      (message : Message) (value : Value) (service : Option NestedService)
      → Reads lib params nested value
      → h.nested ≡ service
      → {e : Error} → send_nested lib service claims message value ≡ err e
      → SafeError e
  unfolding send_nested
  nested-IsSafeError message value none read configured failed =
      subst SafeError (err_inj failed) (unconfigured value read configured)
  nested-IsSafeError message value (some service) read configured failed =
      bind_fails (platform_context lib service claims) _ failed
        (context-IsSafeError value service claims read configured refl)
        λ context known failed.
          let (c, present, own, same) = platform_context-eq-ok lib service claims known in
          bind_fails (safe_invocation (invoke lib service context value)) _ failed
            (invoked-IsSafeError
              (record {
                value = value;
                read = read;
                service = service;
                configured = configured;
                credential = c;
                given = present;
                own = own;
              })
              (invoke lib service context value) (ap (λ x. invoke lib service x value) same))
            λ result ran failed. cc

  dispatch_send-IsSafeError :
      (message : Message) (kind : FixtureKind) (value : Value)
      → Reads lib params kind value
      → {e : Error}
      → (dispatch_send lib h claims message (record { kind = kind; value = value })).1 ≡ err e
      → SafeError e
  unfolding dispatch_send protocol_task
  dispatch_send-IsSafeError message success value read failed = cc
  dispatch_send-IsSafeError message cancel_observed value read failed =
      marked message value read failed
  dispatch_send-IsSafeError message nested value read failed =
      nested-IsSafeError message value h.nested read refl failed
  dispatch_send-IsSafeError message failure value read failed =
      subst SafeError (err_inj failed) (failing value read)
  dispatch_send-IsSafeError message protocol value read failed =
      bind_fails (protocol_task lib message) _ failed
        (λ q.
          bind_fails (clone_message lib message) _ q
            (λ none_made. absurd (clone_message_never_fails lib message none_made))
            λ cloned _ q. cc)
        λ task made failed. cc
  dispatch_send-IsSafeError message stream_success value read failed =
      subst SafeError (err_inj failed) (for_streams value (inl read))
  dispatch_send-IsSafeError message hold value read failed =
      subst SafeError (err_inj failed) (for_streams value (inr read))
  dispatch_send-IsSafeError message interrupted value read failed =
      subst SafeError (err_inj failed) (unsupported value read)

  -- Every error of message/send is one of these: an invalid-parameters error of parseFixture, a fixed
  -- text that the fixture or the credential of the request calls for, the text of the credential's
  -- failed validation, the code of the Router's error in the call that this request makes, or, where a
  -- nested call failed without such a code, one fixed text; nothing else of a failure leaves the agent.
  pub on_send_message-IsSafeError :
      (e : Error)
      → (on_send_message lib h claims params).1 ≡ err e
      → IsSafeError lib h claims params e
  unfolding on_send_message
  on_send_message-IsSafeError e failed = go (parse_fixture lib params) refl failed
    where
      go :
          (parsed : Outcome (Message × FixtureRequest))
          → parse_fixture lib params ≡ parsed
          → (send_parsed lib h claims parsed).1 ≡ err e
          → SafeError e
      go (ok (message, request)) read failed =
          dispatch_send-IsSafeError message request.kind request.value (message, read) failed
      go (panic m) read failed = cc
      go (err x) read failed =
          let (text, same) = parse_fixture-IsRefusal lib params read in
          subst SafeError (sym same ∙ err_inj failed) (unread text (read ∙ ap err same))
