-- ===== src/RuntimeB/Handler/Cancel.antt =====
-- tasks/cancel on a well-formed handler: its four cases, and that it never panics.
use ne_kiro_samples.Base.{
  ℕ, String, true, false, ◌≡◌, refl, ◌≢◌, inl, inr, Option, none, some, ◌==◌, Outcome, ok, err,
  arith, Option-cases, Bool-cases, eq_iff, task_not_found, task_not_cancelable, text_ne,
}
use ne_kiro_samples.A2a.{TaskState, working, canceled, Task}
use ne_kiro_samples.Platform.{Library, Claims}
use ne_kiro_samples.RuntimeB.Identity.{task_owner}
use ne_kiro_samples.RuntimeB.Handler.{
  RuntimeTask, Handler, find_task, write, with_state, count_cancellation, close_canceled,
  cancel_found, on_cancel_task, is_working,
}
use ne_kiro_samples.RuntimeB.Handler.Sound.{IsSoundTask, IsSound, find_task-IsSound, clone_task_lem}

-- The task that a cancellation leaves.
abbrev pub canceled_task : RuntimeTask → RuntimeTask
canceled_task t = record (with_state t canceled) { closed = true }

pub data CancelCase (h : Handler) (claims : Option Claims) (id : String)
    (r : Handler × Outcome Task) : Type 0 where
  unknown : find_task h id ≡ none → r ≡ (h, err task_not_found) → CancelCase h claims id r
  foreign :
      (p : ℕ) (t : RuntimeTask)
      → find_task h id ≡ some (p, t)
      → t.owner ≢ task_owner claims
      → r ≡ (h, err task_not_found)
      → CancelCase h claims id r
  ended :
      (p : ℕ) (t : RuntimeTask)
      → find_task h id ≡ some (p, t)
      → t.owner ≡ task_owner claims
      → t.task.status.state ≢ working
      → r ≡ (count_cancellation h t, err task_not_cancelable)
      → CancelCase h claims id r
  stopped :
      (p : ℕ) (t : RuntimeTask)
      → find_task h id ≡ some (p, t)
      → t.owner ≡ task_owner claims
      → t.task.status.state ≡ working
      → r ≡ (write (count_cancellation h t) p (canceled_task t), ok (canceled_task t).task)
      → CancelCase h claims id r

pub canceled_task-IsSound :
    (lib : Library) (t : RuntimeTask) → IsSoundTask lib t → IsSoundTask lib (canceled_task t)
canceled_task-IsSound lib t v = record {
  phase = refl;
  no_status_message = refl;
  no_timestamp = refl;
  no_metadata = v.no_metadata;
  no_artifacts = v.no_artifacts;
  history_copies = v.history_copies;
}

pub working-open :
    (t : RuntimeTask) (lib : Library)
    → IsSoundTask lib t
    → t.task.status.state ≡ working
    → t.closed ≡ false
working-open t lib v e = ground arith

close_canceled-working :
    (lib : Library) (h : Handler) (p : ℕ) (t : RuntimeTask)
    → IsSoundTask lib t
    → t.task.status.state ≡ working
    → close_canceled lib h p (with_state t canceled)
      ≡ (write h p (canceled_task t), ok (canceled_task t).task)
unfolding close_canceled
close_canceled-working lib h p t v e =
    rw
      (working-open t lib v e, clone_task_lem lib (canceled_task t) (canceled_task-IsSound lib t v))
      refl

is_working-ne : (s : TaskState) → is_working s ≡ false → s ≢ working
is_working-ne s e q = ground arith

is_working-eq : (s : TaskState) → is_working s ≡ true → s ≡ working
is_working-eq s e = ground arith

cancel_found-CancelCase :
    (lib : Library) (h : Handler) (claims : Option Claims) (id : String) (p : ℕ) (t : RuntimeTask)
    → find_task h id ≡ some (p, t)
    → IsSoundTask lib t
    → CancelCase h claims id (cancel_found lib h claims (some (p, t)))
unfolding cancel_found
cancel_found-CancelCase lib h claims id p t found v =
    elim (Bool-cases (t.owner == task_owner claims)) [
      | inr other ↦
          foreign p t found (λ e. ground (arith, eq_iff t.owner (task_owner claims)))
            (rw other refl)
      | inl own ↦ elim (Bool-cases (is_working t.task.status.state)) [
        | inl e ↦ stopped p t found ((eq_iff _ _).0 own) (is_working-eq _ e) (
            rw (own, e)
              (close_canceled-working lib (count_cancellation h t) p t v (is_working-eq _ e)))
        | inr e ↦ ended p t found ((eq_iff _ _).0 own) (is_working-ne _ e) (rw (own, e) refl)
      ]
    ]

-- With a task id, tasks/cancel on a well-formed handler does one of four things: the id is unknown
-- or belongs to another owner, and nothing changes; the task has ended, and the attempt is counted;
-- or the task was working, is canceled with its channel closed, and its copy is returned. It never
-- panics.
pub on_cancel_task-CancelCase :
    (lib : Library) (h : Handler) (claims : Option Claims) (id : String)
    → IsSound lib h
    → id ≢ ""
    → CancelCase h claims id (on_cancel_task lib h claims (some id))
unfolding on_cancel_task
on_cancel_task-CancelCase lib h claims id v given =
    rw (text_ne given) (elim (Option-cases (find_task h id)) [
      | inl missing ↦ unknown missing (rw missing refl)
      | inr ((p, t), found) ↦
          rw found (
            cancel_found-CancelCase lib h claims id p t found
              (find_task-IsSound lib h id v found).3)
    ])
