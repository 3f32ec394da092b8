-- ===== src/RuntimeB/System/Kept.antt =====
-- Which tasks stay in the map of runtime-b/handler.go, operation by operation.
use ne_kiro_samples.Base.{
  ℕ, String, true, ◌≡◌, ◌≢◌, refl, ap, ◌∙◌, inl, inr, Option, none, some, get_elem?, Outcome, ok,
  err, panic, Bool-cases, ◌==◌, not, ◌&&◌, eq_iff, arith,
}
use ne_kiro_samples.Base.Dict.{lookup, lookup-remove}
use ne_kiro_samples.A2a.{working, Task, TaskState}
use ne_kiro_samples.Platform.{Library}
use ne_kiro_samples.RuntimeB.Fixture.{
  FixtureKind, success, stream_success, failure, protocol, hold, cancel_observed, interrupted,
  nested,
}
use ne_kiro_samples.RuntimeB.Clone.{clone_task}
use ne_kiro_samples.RuntimeB.Handler.{
  Handler, RuntimeTask, find_task, deref, is_working, remove_found, remove_working_task,
  complete_task,
}
use ne_kiro_samples.RuntimeB.Handler.Keys.{complete_task-SameKeys}
use ne_kiro_samples.RuntimeB.Handler.Lifecycle.{
  Advances, stays, cancels, completes, Continues, Continues-refl, Evolves,
}
use ne_kiro_samples.RuntimeB.Handler.Sound.{deref-eq-some}
use ne_kiro_samples.RuntimeB.Stream.{
  Stream, StreamEvent, Place, Signal, continue, stop, context_done, created, at_task, holding,
  at_message, at_artifact, at_last, closing, finished, run_deferred, is_hold, is_interrupted,
  first_yield, unless_canceled, last_yield, after_task_of, after_message, after_artifact,
  after_last, select_hold, unless_stopped, resume_at, resume_found, resume,
}

abbrev pub KeepsEnded : Handler → Handler → Type 0
KeepsEnded h k =
    (id : String) (p : ℕ) (t : RuntimeTask)
    → lookup id h.tasks ≡ some p
    → get_elem? h.objects p ≡ some t
    → t.task.status.state ≢ working
    → lookup id k.tasks ≡ some p

pub same_tasks-KeepsEnded : (h k : Handler) → k.tasks ≡ h.tasks → KeepsEnded h k
same_tasks-KeepsEnded h k same id p t key at over = ap (lookup id) same ∙ key

find_task-eq :
    (h : Handler) (id : String) {p : ℕ} {t : RuntimeTask}
    → lookup id h.tasks ≡ some p
    → get_elem? h.objects p ≡ some t
    → find_task h id ≡ some (p, t)
unfolding find_task
find_task-eq h id key at = rw (key, deref) (rw at refl)

remove_found-KeepsEnded :
    (h : Handler) (k : String) (o : Option (ℕ × RuntimeTask))
    → find_task h k ≡ o
    → KeepsEnded h (remove_found h k o)
remove_found-KeepsEnded h k none found id p t key at over = key
remove_found-KeepsEnded h k (some (q, u)) found id p t key at over =
    elim (Bool-cases (is_working u.task.status.state)) [
      | inr ended ↦ rw ended key
      | inl live ↦ rw live (
          rw (lookup-remove k id h.tasks) (elim (Bool-cases (k == id)) [
            | inr other ↦ rw other key
            | inl same ↦ absurd (over (is_working-eq (one same) live))
          ]))
    ]
  where
    one : (k == id) ≡ true → u ≡ t
    one same =
        let there : find_task h k ≡ some (p, t) =
          rw ((eq_iff k id).0 same) (find_task-eq h id key at) in
        cc

    is_working-eq : u ≡ t → is_working u.task.status.state ≡ true → t.task.status.state ≡ working
    is_working-eq same live = ground arith

pub remove_working_task-KeepsEnded :
    (h : Handler) (k : String) → KeepsEnded h (remove_working_task h k)
unfolding remove_working_task
remove_working_task-KeepsEnded h k = remove_found-KeepsEnded h k (find_task h k) refl

abbrev Keeps : Handler → Handler × Stream → Type 0
Keeps h r = KeepsEnded h r.0

module _ (h : Handler) where
  kept : KeepsEnded h h
  kept id p t key at over = key

  run_deferred-Keeps : (s : Stream) (id : String) → Keeps h (run_deferred h s id)
  unfolding run_deferred
  run_deferred-Keeps s id = elim (Bool-cases (not s.terminal && not (is_hold s.request.kind))) [
    | inl removes ↦ rw removes (remove_working_task-KeepsEnded h id)
    | inr leaves ↦ rw leaves kept
  ]

  first_yield-Keeps :
      (copied : Outcome Task) (s : Stream) (id : String) → Keeps h (first_yield copied h s id)
  first_yield-Keeps (ok copy) s id = kept
  first_yield-Keeps (err e) s id = run_deferred-Keeps s id
  first_yield-Keeps (panic m) s id = run_deferred-Keeps _ id

  unless_canceled-Keeps :
      (stored : RuntimeTask) (s : Stream) (e : StreamEvent) (place : Place)
      → Keeps h (unless_canceled stored h s e place)
  unless_canceled-Keeps stored s e place = elim (Bool-cases stored.closed) [
    | inl closed ↦ rw closed kept
    | inr live ↦ rw live kept
  ]

last_yield-handler :
    (o : Outcome TaskState) (h : Handler) (s : Stream) (task : Task) → (last_yield o h s task).0 ≡ h
last_yield-handler (ok state) h s task = refl
last_yield-handler (err e) h s task = refl
last_yield-handler (panic m) h s task = refl

module _ (lib : Library) (h : Handler) (s : Stream) (stored : RuntimeTask) where
  after_task_of-Keeps : (kind : FixtureKind) → Keeps h (after_task_of lib h s stored kind)
  after_task_of-Keeps hold = kept h
  after_task_of-Keeps interrupted = kept h
  after_task_of-Keeps success = unless_canceled-Keeps h stored s _ _
  after_task_of-Keeps stream_success = unless_canceled-Keeps h stored s _ _
  after_task_of-Keeps failure = unless_canceled-Keeps h stored s _ _
  after_task_of-Keeps protocol = unless_canceled-Keeps h stored s _ _
  after_task_of-Keeps cancel_observed = unless_canceled-Keeps h stored s _ _
  after_task_of-Keeps nested = unless_canceled-Keeps h stored s _ _

  after_message-Keeps : Keeps h (after_message lib h s stored)
  after_message-Keeps = elim (Bool-cases (is_interrupted s.request.kind)) [
    | inl cut ↦ rw cut (kept h)
    | inr whole ↦ rw whole (unless_canceled-Keeps h stored s _ _)
  ]

  after_artifact-Keeps : Keeps h (after_artifact lib h s stored)
  after_artifact-Keeps = elim (Bool-cases (is_interrupted s.request.kind)) [
    | inl cut ↦ rw cut (run_deferred-Keeps h s stored.task.id)
    | inr whole ↦ rw whole (unless_canceled-Keeps h stored s _ _)
  ]

  after_last-Keeps : Keeps h (after_last lib h s stored)
  after_last-Keeps = same_tasks-KeepsEnded h (after_last lib h s stored).0 (
      ap (λ (k : Handler). k.tasks)
        (last_yield-handler (complete_task h stored.task.id).1 (complete_task h stored.task.id).0 s
          stored.task)
      ∙ (complete_task-SameKeys h stored.task.id).0)

  select_hold-Keeps : (signal : Signal) → Keeps h (select_hold lib h s stored signal)
  select_hold-Keeps context_done = run_deferred-Keeps h s stored.task.id
  select_hold-Keeps continue = elim (Bool-cases stored.closed) [
    | inl closed ↦ rw closed (kept h)
    | inr live ↦ rw live (kept h)
  ]
  select_hold-Keeps stop = elim (Bool-cases stored.closed) [
    | inl closed ↦ rw closed (kept h)
    | inr live ↦ rw live (kept h)
  ]

  unless_stopped-Keeps :
      (signal : Signal) (next : Handler × Stream)
      → Keeps h next
      → Keeps h (unless_stopped lib h s stored signal next)
  unless_stopped-Keeps stop next keeps = run_deferred-Keeps h s stored.task.id
  unless_stopped-Keeps continue next keeps = keeps
  unless_stopped-Keeps context_done next keeps = keeps

  resume_at-Keeps :
      (place : Place) (signal : Signal) → Keeps h (resume_at lib h s stored place signal)
  unfolding resume_at
  resume_at-Keeps created signal = first_yield-Keeps h (clone_task lib stored.task) s stored.task.id
  resume_at-Keeps at_task signal =
      unless_stopped-Keeps signal _ (after_task_of-Keeps s.request.kind)
  resume_at-Keeps holding signal = select_hold-Keeps signal
  resume_at-Keeps at_message signal = unless_stopped-Keeps signal _ after_message-Keeps
  resume_at-Keeps at_artifact signal = unless_stopped-Keeps signal _ after_artifact-Keeps
  resume_at-Keeps at_last signal = unless_stopped-Keeps signal _ after_last-Keeps
  resume_at-Keeps closing signal = run_deferred-Keeps h s stored.task.id
  resume_at-Keeps finished signal = kept h

pub resume-KeepsEnded :
    (lib : Library) (h : Handler) (s : Stream) (signal : Signal) → Keeps h (resume lib h s signal)
unfolding resume
resume-KeepsEnded lib h s signal = found (get_elem? h.objects s.pointer)
  where
    found : (o : Option RuntimeTask) → Keeps h (resume_found lib h s signal o)
    found none = kept h
    found (some stored) = resume_at-Keeps lib h s stored s.place signal

-- An ended task that its id finds is found under it again, unchanged in its state.
abbrev pub KeptTasks : Handler → Handler → Type 0
KeptTasks h k =
    (id : String) (p : ℕ) (t : RuntimeTask)
    → find_task h id ≡ some (p, t)
    → t.task.status.state ≢ working
    → (u : RuntimeTask) × (find_task k id ≡ some (p, u))
      × Continues t u
      × (u.task.status.state ≡ t.task.status.state)

ended_stays : {a b : TaskState} → a ≢ working → Advances a b → b ≡ a
ended_stays over (stays same) = same
ended_stays over (cancels live e) = absurd (over live)
ended_stays over (completes live e) = absurd (over live)

pub KeepsEnded-KeptTasks :
    (h k : Handler) → KeepsEnded h k → Evolves h.objects k.objects → KeptTasks h k
unfolding find_task
KeepsEnded-KeptTasks h k keeps evolves id p t found over =
    let (key, at) = deref-eq-some h.objects (lookup id h.tasks) found in
    let (u, there, c) = evolves p t at in
    (u, find_task-eq k id (keeps id p t key at over) there, c, ended_stays over c.advances)

pub KeptTasks-refl : (h : Handler) → KeptTasks h h
KeptTasks-refl h id p t found over = (t, found, Continues-refl t, refl)
