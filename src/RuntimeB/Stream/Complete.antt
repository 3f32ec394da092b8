-- ===== src/RuntimeB/Stream/Complete.antt =====
-- A stream that is read to its end, with no cancellation, sends its whole script, and its task is
-- completed.
use ne_kiro_samples.Base.{
  ℕ, zero, suc, true, false, ◌≡◌, refl, ◌∙◌, ap, some, List, [], ◌∷◌, ◌++◌, get_elem?, arith,
  get_elem?-set_self,
}
use ne_kiro_samples.Base.Dict.{lookup}
use ne_kiro_samples.A2a.{working, completed}
use ne_kiro_samples.Platform.{Library}
use ne_kiro_samples.RuntimeB.Fixture.{stream_success}
use ne_kiro_samples.RuntimeB.Handler.{Handler, RuntimeTask, write, with_state}
use ne_kiro_samples.RuntimeB.Handler.Sound.{IsSoundTask, clone_task_lem}
use ne_kiro_samples.RuntimeB.Handler.Keys.{complete_task-working}
use ne_kiro_samples.RuntimeB.Stream.{
  Stream, StreamEvent, created, at_task, at_message, at_artifact, at_last, closing, finished,
  continue, resume, run_deferred, emit, emit_final, task_event, message_event, stream_message,
  artifact_at,
}
use ne_kiro_samples.RuntimeB.Stream.Script.{script, final_event, task_in}

-- n steps of one stream, the consumer reading on.
pub read : Library → Handler × Stream → ℕ → Handler × Stream
read lib (h, s) zero = (h, s)
read lib (h, s) (suc n) = read lib (resume lib h s continue) n

module _ (lib : Library) (h : Handler) (s : Stream) (t : RuntimeTask)
    (at : get_elem? h.objects s.pointer ≡ some t) (sound : IsSoundTask lib t)
    (live : t.task.status.state ≡ working) (kind : s.request.kind ≡ stream_success)
    (key : lookup t.task.id h.tasks ≡ some s.pointer) where
  unclosed : t.closed ≡ false
  unclosed = ground arith

  step_created :
      s.place ≡ created → resume lib h s continue ≡ (h, emit s (task_event t.task) at_task)
  unfolding resume
  step_created p = rw (at, p) (rw (clone_task_lem lib t sound) refl)

  step_at_task :
      s.place ≡ at_task
      → resume lib h s continue
        ≡ (h, emit s (message_event (stream_message lib h t.task s.request)) at_message)
  unfolding resume
  step_at_task p = ground arith

  step_at_message :
      s.place ≡ at_message
      → resume lib h s continue ≡ (h, emit s (artifact_at lib h s t false false 0) at_artifact)
  unfolding resume
  step_at_message p = ground arith

  step_at_artifact :
      s.place ≡ at_artifact
      → resume lib h s continue ≡ (h, emit s (artifact_at lib h s t true true 1) at_last)
  unfolding resume
  step_at_artifact p = ground arith

  step_at_last :
      s.place ≡ at_last
      → resume lib h s continue
        ≡ (write h s.pointer (with_state t completed), emit_final s t.task completed)
  unfolding resume
  step_at_last p = rw (at, p) (rw (complete_task-working h t.task.id s.pointer t key at live) refl)

  step_closing :
      s.place ≡ closing
      → s.terminal ≡ true
      → resume lib h s continue ≡ (h, record s { place = finished })
  unfolding resume run_deferred
  step_closing p e = rw (at, p, e) refl

  as_shown : t.task ≡ task_in t working
  as_shown = ground arith

-- A stream that is in its last place ends there.
read_end :
    (lib : Library) (k : Handler) (s : Stream) (u : RuntimeTask)
    → get_elem? k.objects s.pointer ≡ some u
    → s.place ≡ closing
    → s.terminal ≡ true
    → read lib (k, s) 1 ≡ (k, record s { place = finished })
unfolding read resume run_deferred
read_end lib k s u at p e = rw (at, p, e) refl

module _ (lib : Library) (h : Handler) (s : Stream) (t : RuntimeTask)
    (at : get_elem? h.objects s.pointer ≡ some t) (sound : IsSoundTask lib t)
    (live : t.task.status.state ≡ working) (kind : s.request.kind ≡ stream_success)
    (key : lookup t.task.id h.tasks ≡ some s.pointer) where
  abbrev s1 : Stream
  s1 = emit s (task_event t.task) at_task

  abbrev s2 : Stream
  s2 = emit s1 (message_event (stream_message lib h t.task s.request)) at_message

  abbrev s3 : Stream
  s3 = emit s2 (artifact_at lib h s t false false 0) at_artifact

  abbrev s4 : Stream
  s4 = emit s3 (artifact_at lib h s t true true 1) at_last

  read_all :
      s.place ≡ created
      → read lib (h, s) 6 ≡ (
        write h s.pointer (with_state t completed),
        record (emit_final s4 t.task completed) { place = finished },
      )
  unfolding read
  read_all p = rw (step_created lib h s t at sound live kind key p) (
      rw (step_at_task lib h s1 t at sound live kind key refl) (
        rw (step_at_message lib h s2 t at sound live kind key refl) (
          rw (step_at_artifact lib h s3 t at sound live kind key refl) (
            rw (step_at_last lib h s4 t at sound live kind key refl) (
              read_end lib (write h s.pointer (with_state t completed))
                (emit_final s4 t.task completed) (with_state t completed)
                (get_elem?-set_self h.objects s.pointer (with_state t completed) at) refl refl)))))

  -- A stream-success stream that is read to its end, with its task working and no other request in
  -- between, sends the whole script and the final event of a completed task, in that order, ends,
  -- and leaves the task completed and every other task as it was.
  pub stream_completes :
      s.place ≡ created
      → s.events ≡ []
      → read lib (h, s) 6 ≡ (
        write h s.pointer (with_state t completed),
        record s {
          place = finished;
          terminal = true;
          events = script lib h s t working ++ final_event t completed ∷ [];
        },
      )
  stream_completes p e =
      read_all p
      ∙ ap
          (λ (es : List StreamEvent). (
            write h s.pointer (with_state t completed),
            record s { place = finished; terminal = true; events = es },
          ))
          all_sent
    where
      all_sent :
          (record (emit_final s4 t.task completed) { place = finished }).events
          ≡ script lib h s t working ++ final_event t completed ∷ []
      all_sent = rw (e, ← as_shown lib h s t at sound live kind key) refl
