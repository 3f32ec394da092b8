-- ===== src/RuntimeB/Stream/Steps.antt =====
-- Each step of an iterator follows its script, on a well-formed handler.
use ne_kiro_samples.Base.{
  ℕ, suc, true, false, ◌≡◌, refl, ◌≢◌, ◌⊎◌, inl, inr, some, [], ◌∷◌, ◌++◌, get_elem?, arith, sym,
  Bool-cases, ap, subst,
}
use ne_kiro_samples.Base.{get_elem?-set_self, get_elem?-set_ne}
use ne_kiro_samples.Base.Dict.{lookup}
use ne_kiro_samples.A2a.{working, completed, canceled}
use ne_kiro_samples.Platform.{Library}
use ne_kiro_samples.RuntimeB.Fixture.{FixtureKind, stream_success, hold, interrupted}
use ne_kiro_samples.RuntimeB.Handler.{RuntimeTask, Handler, with_state}
use ne_kiro_samples.RuntimeB.Handler.Sound.{IsSound, IsSoundTask}
use ne_kiro_samples.RuntimeB.Handler.Preserve.{complete_task-IsSound}
use ne_kiro_samples.RuntimeB.Handler.Lifecycle.{complete_task-Evolves}
use ne_kiro_samples.RuntimeB.Handler.Keys.{complete_task-working, complete_task-canceled}
use ne_kiro_samples.RuntimeB.Stream.{
  StreamEvent, Stream, Place, holding, at_message, at_artifact, at_last, is_hold, is_streamed,
  is_interrupted, run_deferred, emit, emit_final, unless_canceled, after_task, after_message,
  after_artifact, after_last, artifact_at, status_update, stream_message, artifact_update,
  message_event, after_task_of,
}
use ne_kiro_samples.RuntimeB.Stream.Resumed.{
  Resumed, unchanged, deferred-Resumed, emit-Resumed, final-Resumed,
}
use ne_kiro_samples.RuntimeB.Stream.Script.{Sent, Fits, final_event}

kind-success :
    (k : FixtureKind)
    → is_streamed k ≡ true
    → is_hold k ≡ false
    → is_interrupted k ≡ false
    → k ≡ stream_success
kind-success k a b c = ground arith

streamed_cases :
    (k : FixtureKind)
    → is_streamed k ≡ true
    → (k ≡ stream_success) ⊎ ((k ≡ hold) ⊎ (k ≡ interrupted))
streamed_cases k e = ground arith

state_cases :
    (lib : Library) (t : RuntimeTask)
    → IsSoundTask lib t
    → t.task.status.state ≢ completed
    → (t.task.status.state ≡ working) ⊎ (t.task.status.state ≡ canceled)
state_cases lib t v e = ground arith

module _ (lib : Library) (h : Handler) (s : Stream) (v : IsSound lib h) (t : RuntimeTask)
    (at : get_elem? h.objects s.pointer ≡ some t) (streamed : is_streamed s.request.kind ≡ true)
    (sound : IsSoundTask lib t) (quiet : s.terminal ≡ false)
    (key : lookup t.task.id h.tasks ≡ some s.pointer)
    (open_ended : t.task.status.state ≢ completed) where
  closed-canceled : t.closed ≡ true → t.task.status.state ≡ canceled
  closed-canceled e = ground arith

  -- Giving up before the final event.
  pub stopped-Resumed : (n : ℕ) → Sent lib h s t n → Resumed lib h s (run_deferred h s t.task.id)
  stopped-Resumed n sent = deferred-Resumed lib h s v t at streamed (λ _. key) (rw quiet (n, sent))

  pub canceled-Resumed :
      (n : ℕ)
      → Sent lib h s t (suc n)
      → t.closed ≡ true
      → Resumed lib h s (h, emit_final s t.task canceled)
  canceled-Resumed n (shown, e) closed =
      final-Resumed lib h s v t at streamed canceled
        (inl (n, shown, ap (λ xs. xs ++ final_event t canceled ∷ []) e, closed-canceled closed))

  unless_canceled-Resumed :
      (n : ℕ) (e : StreamEvent) (place : Place)
      → Sent lib h s t (suc n)
      → Fits lib h (emit s e place) t place false
      → Resumed lib h s (unless_canceled t h s e place)
  unless_canceled-Resumed n e place sent f = elim (Bool-cases t.closed) [
    | inl closed ↦ rw closed (canceled-Resumed n sent closed)
    | inr open' ↦
        rw open' (emit-Resumed lib h s v t at streamed e place (rw quiet f) key open_ended)
  ]

  completes-Resumed :
      s.request.kind ≡ stream_success
      → Sent lib h s t 4
      → t.task.status.state ≡ working
      → Resumed lib h s (after_last lib h s t)
  unfolding status_update stream_message artifact_update
  completes-Resumed kind (shown, e) live =
      let done = complete_task-working h t.task.id s.pointer t key at live in
      rw done (record {
        same_pointer = refl;
        later = record {
          evolves = rw done at (complete_task-Evolves lib v t.task.id);
          same_instance = refl;
        };
        sound = rw done at (complete_task-IsSound lib v t.task.id);
        fits = record {
          object = with_state t completed;
          at = get_elem?-set_self h.objects s.pointer (with_state t completed) at;
          streamed = streamed;
          fits = inr (shown, ap (λ xs. xs ++ final_event t completed ∷ []) e, kind, refl);
          owns = λ live. cc;
          open_ended = λ live. cc;
        };
        others =
            λ p other. get_elem?-set_ne h.objects (with_state t completed) (λ q. other (sym q));
        keeps = λ id p found other. found;
      })

  -- The last step but the clean-up: the task is completed, or was canceled before.
  pub after_last-Resumed :
      s.request.kind ≡ stream_success → Sent lib h s t 4 → Resumed lib h s (after_last lib h s t)
  after_last-Resumed kind (shown, e) = elim (state_cases lib t sound open_ended) [
    | inl live ↦ completes-Resumed kind (shown, e) live
    | inr over ↦ rw (complete_task-canceled h t.task.id s.pointer t key at over) (
        final-Resumed lib h s v t at streamed canceled
          (inl (3, shown, ap (λ xs. xs ++ final_event t canceled ∷ []) e, over)))
  ]

  message : StreamEvent
  message = message_event (stream_message lib h t.task s.request)

  pub after_task-Resumed : Sent lib h s t 1 → Resumed lib h s (after_task lib h s t)
  unfolding message
  after_task-Resumed (shown, e) = elim (streamed_cases s.request.kind streamed) [
    | inl kind ↦ after_task_at stream_success kind (
        unless_canceled-Resumed 0 message at_message (shown, e)
          (not_hold stream_success kind refl, sent_message))
    | inr (inl kind) ↦ after_task_at hold kind (
        unchanged lib h s v (record s { place = holding }) refl
          (record {
            object = t;
            at = at;
            streamed = streamed;
            fits = rw quiet (kind, (shown, e));
            owns = λ live. key;
            open_ended = λ live. open_ended;
          }))
    | inr (inr kind) ↦ after_task_at interrupted kind (
        emit-Resumed lib h s v t at streamed message at_message
          (rw quiet (not_hold interrupted kind refl, sent_message)) key open_ended)
  ]
    where
      sent_message : Sent lib h (emit s message at_message) t 2
      sent_message = (shown, ap (λ xs. xs ++ message ∷ []) e)

      not_hold :
          (k : FixtureKind)
          → s.request.kind ≡ k
          → is_hold k ≡ false
          → is_hold s.request.kind ≡ false
      not_hold k kind test = rw kind test

      after_task_at :
          (k : FixtureKind)
          → s.request.kind ≡ k
          → Resumed lib h s (after_task_of lib h s t k)
          → Resumed lib h s (after_task lib h s t)
      after_task_at k kind r = subst (λ q. Resumed lib h s (after_task_of lib h s t q)) (sym kind) r

  pub after_message-Resumed :
      is_hold s.request.kind ≡ false → Sent lib h s t 2 → Resumed lib h s (after_message lib h s t)
  after_message-Resumed kind (shown, e) = elim (Bool-cases (is_interrupted s.request.kind)) [
    | inl test ↦ rw test (
        emit-Resumed lib h s v t at streamed _ at_artifact
          (rw quiet (kind, (shown, ap (λ xs. xs ++ artifact_at lib h s t false false 0 ∷ []) e)))
          key open_ended)
    | inr test ↦ rw test (
        unless_canceled-Resumed 1 _ at_artifact (shown, e)
          (kind, (shown, ap (λ xs. xs ++ artifact_at lib h s t false false 0 ∷ []) e)))
  ]

  pub after_artifact-Resumed :
      is_hold s.request.kind ≡ false → Sent lib h s t 3 → Resumed lib h s (after_artifact lib h s t)
  after_artifact-Resumed kind (shown, e) = elim (Bool-cases (is_interrupted s.request.kind)) [
    | inl test ↦ rw test (stopped-Resumed 3 (shown, e))
    | inr test ↦ rw test (
        unless_canceled-Resumed 2 (artifact_at lib h s t true true 1) at_last (shown, e)
          (
            kind-success _ streamed kind test,
            (shown, ap (λ xs. xs ++ artifact_at lib h s t true true 1 ∷ []) e),
          ))
  ]
