-- ===== src/RuntimeB/Stream/Follows.antt =====
-- An iterator follows its script, whatever resumes it.
use ne_kiro_samples.Base.{
  ℕ, Bool, true, false, ◌≡◌, refl, ◌≢◌, inl, inr, some, [], ◌∷◌, ◌++◌, get_elem?, arith, ◌∙◌,
  Bool-cases, if◌then◌else◌, ap, All-get_elem?,
}
use ne_kiro_samples.Base.Dict.{lookup}
use ne_kiro_samples.A2a.{completed, canceled}
use ne_kiro_samples.Platform.{Library}
use ne_kiro_samples.RuntimeB.Clone.{clone_task}
use ne_kiro_samples.RuntimeB.Handler.{RuntimeTask, Handler}
use ne_kiro_samples.RuntimeB.Handler.Sound.{IsSound, IsSoundTask, clone_task_lem}
use ne_kiro_samples.RuntimeB.Stream.{
  Stream, Place, created, at_task, holding, at_message, at_artifact, at_last, closing, finished,
  Signal, continue, stop, context_done, is_streamed, resume, resume_at, emit_final, task_event,
  first_yield, unless_stopped, select_hold,
}
use ne_kiro_samples.RuntimeB.Stream.Resumed.{Resumed, unchanged, deferred-Resumed, emit-Resumed}
use ne_kiro_samples.RuntimeB.Stream.Steps.{
  stopped-Resumed, canceled-Resumed, after_task-Resumed, after_message-Resumed,
  after_artifact-Resumed, after_last-Resumed,
}
use ne_kiro_samples.RuntimeB.Stream.Script.{Sent, Fits, StreamFits, is_live, task_in}

module _ (lib : Library) (h : Handler) (s : Stream) (v : IsSound lib h) (f : StreamFits lib h s)
    (t : RuntimeTask) (at : get_elem? h.objects s.pointer ≡ some t) (sound : IsSoundTask lib t)
    (streamed : is_streamed s.request.kind ≡ true) where
  stay : Resumed lib h s (h, s)
  stay = unchanged lib h s v s refl f

  module _ (quiet : s.terminal ≡ false) (key : lookup t.task.id h.tasks ≡ some s.pointer)
      (open_ended : t.task.status.state ≢ completed) where
    shown : t.task ≡ task_in t t.task.status.state
    shown = ground arith

    first-Resumed :
        s.events ≡ [] → Resumed lib h s (first_yield (clone_task lib t.task) h s t.task.id)
    first-Resumed e = rw (clone_task_lem lib t sound) (
        emit-Resumed lib h s v t at streamed (task_event t.task) at_task
          (rw quiet (
            t.task.status.state,
            ap (λ xs. xs ++ task_event t.task ∷ []) e ∙ ap (λ x. task_event x ∷ []) shown,
          ))
          key open_ended)

    unless_stopped-Resumed :
        (n : ℕ) (signal : Signal) (next : Handler × Stream)
        → Sent lib h s t n
        → Resumed lib h s next
        → Resumed lib h s (unless_stopped lib h s t signal next)
    unless_stopped-Resumed n stop next sent r =
        stopped-Resumed lib h s v t at streamed sound quiet key open_ended n sent
    unless_stopped-Resumed n continue next sent r = r
    unless_stopped-Resumed n context_done next sent r = r

    closed_or_stay :
        Sent lib h s t 1
        → Resumed lib h s (if t.closed then (h, emit_final s t.task canceled) else (h, s))
    closed_or_stay sent = elim (Bool-cases t.closed) [
      | inl closed ↦
          rw closed
            (canceled-Resumed lib h s v t at streamed sound quiet key open_ended 0 sent closed)
      | inr open' ↦ rw open' stay
    ]

    select-Resumed :
        (signal : Signal) → Sent lib h s t 1 → Resumed lib h s (select_hold lib h s t signal)
    select-Resumed context_done sent =
        stopped-Resumed lib h s v t at streamed sound quiet key open_ended 1 sent
    select-Resumed continue sent = closed_or_stay sent
    select-Resumed stop sent = closed_or_stay sent

    resume_live :
        (place : Place) (signal : Signal)
        → Fits lib h s t place false
        → is_live place false ≡ true
        → Resumed lib h s (resume_at lib h s t place signal)
    unfolding resume_at
    resume_live created signal fit live = first-Resumed fit
    resume_live at_task signal fit live =
        unless_stopped-Resumed 1 signal _ fit
          (after_task-Resumed lib h s v t at streamed sound quiet key open_ended fit)
    resume_live holding signal fit live = select-Resumed signal fit.1
    resume_live at_message signal fit live =
        unless_stopped-Resumed 2 signal _ fit.1
          (after_message-Resumed lib h s v t at streamed sound quiet key open_ended fit.0 fit.1)
    resume_live at_artifact signal fit live =
        unless_stopped-Resumed 3 signal _ fit.1
          (after_artifact-Resumed lib h s v t at streamed sound quiet key open_ended fit.0 fit.1)
    resume_live at_last signal fit live =
        unless_stopped-Resumed 4 signal _ fit.1
          (after_last-Resumed lib h s v t at streamed sound quiet key open_ended fit.0 fit.1)
    resume_live closing signal fit live = absurd fit
    resume_live finished signal fit live = cc

  resume_terminal :
      (place : Place) (signal : Signal)
      → s.terminal ≡ true
      → Fits lib h s t place true
      → Resumed lib h s (resume_at lib h s t place signal)
  unfolding resume_at
  resume_terminal finished signal loud fit = stay
  resume_terminal closing signal loud fit =
      deferred-Resumed lib h s v t at streamed (λ quiet. cc) (rw loud fit)
  resume_terminal created signal loud fit = absurd fit
  resume_terminal _ signal loud fit = absurd fit

  resume_fitting :
      (place : Place) (terminal : Bool) (signal : Signal)
      → s.terminal ≡ terminal
      → Fits lib h s t place terminal
      → (is_live place terminal ≡ true → lookup t.task.id h.tasks ≡ some s.pointer)
      → (is_live place terminal ≡ true → t.task.status.state ≢ completed)
      → Resumed lib h s (resume_at lib h s t place signal)
  unfolding resume_at
  resume_fitting finished false signal e fit key open_ended = stay
  resume_fitting closing false signal e fit key open_ended = absurd fit
  resume_fitting place true signal e fit key open_ended = resume_terminal place signal e fit
  resume_fitting place false signal e fit key open_ended =
      resume_live e (key refl) (open_ended refl) place signal fit refl

-- A step of a stream that fits its script, on a well-formed handler, whatever resumes it: the handler
-- stays well formed, the stream fits its script, the tasks evolve as tasks may, no other task changes,
-- and every key of another task stays in the map.
pub resume-Resumed :
    (lib : Library) (h : Handler) (s : Stream) (signal : Signal)
    → IsSound lib h
    → StreamFits lib h s
    → Resumed lib h s (resume lib h s signal)
unfolding resume
resume-Resumed lib h s signal v f =
    let sound = All-get_elem? (IsSoundTask lib) h.objects s.pointer v.sound_tasks f.at in
    rw f.at (
      resume_fitting lib h s v f f.object f.at sound f.streamed s.place s.terminal signal refl
        f.fits f.owns f.open_ended)
