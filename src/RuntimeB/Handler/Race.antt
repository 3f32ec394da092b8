-- ===== src/RuntimeB/Handler/Race.antt =====
-- A task is ended once: what comes first of its completion and the owner's cancellation decides.
use ne_kiro_samples.Base.{
  ℕ, String, ◌≡◌, refl, sym, ◌∙◌, ap, ◌≢◌, Option, some, ◌==◌, true, get_elem?, get_elem?-set_self,
  text_ne, arith, eq_iff, Outcome, ok, err, task_not_cancelable,
}
use ne_kiro_samples.Base.Dict.{lookup}
use ne_kiro_samples.A2a.{working, completed, canceled, Task}
use ne_kiro_samples.Platform.{Library, Claims}
use ne_kiro_samples.RuntimeB.Identity.{task_owner}
use ne_kiro_samples.RuntimeB.Handler.{
  Handler, RuntimeTask, find_task, deref, write, with_state, on_cancel_task, cancel_found,
  complete_task,
}
use ne_kiro_samples.RuntimeB.Handler.Sound.{IsSound, find_task-IsSound}
use ne_kiro_samples.RuntimeB.Handler.Cancel.{
  canceled_task, CancelCase, unknown, foreign, ended, stopped, on_cancel_task-CancelCase,
}
use ne_kiro_samples.RuntimeB.Handler.Lifecycle.{count_cancellation-objects}
use ne_kiro_samples.RuntimeB.Handler.Keys.{
  on_cancel_task-SameKeys, complete_task-working, complete_task-canceled,
}

-- What the owner's request leaves of a working task.
pub cancel-object :
    (lib : Library) (h : Handler) (claims : Option Claims) (id : String) (p : ℕ) (t : RuntimeTask)
    → find_task h id ≡ some (p, t)
    → get_elem? h.objects p ≡ some t
    → t.owner ≡ task_owner claims
    → t.task.status.state ≡ working
    → (r : Handler × Outcome Task) → CancelCase h claims id r
    → get_elem? r.0.objects p ≡ some (canceled_task t)
cancel-object lib h claims id p t found at own live r (unknown missing e) = cc
cancel-object lib h claims id p t found at own live r (foreign q u there other e) =
    let same : t ≡ u = cc in absurd (other (ap (λ x. x.owner) (sym same) ∙ own))
cancel-object lib h claims id p t found at own live r (ended q u there mine over e) =
    let same : t ≡ u = cc in absurd (over (ap (λ x. x.task.status.state) (sym same) ∙ live))
cancel-object lib h claims id p t found at own live r (stopped q u there mine _ e) =
    let same : t ≡ u = cc in
    let here : p ≡ q = cc in
    rw (e, ← here, ← same, count_cancellation-objects h t)
      (get_elem?-set_self h.objects p (canceled_task t) at)

module _ (lib : Library) (h : Handler) (claims : Option Claims) (id : String) (p : ℕ)
    (t : RuntimeTask) (v : IsSound lib h) (given : id ≢ "") (found : find_task h id ≡ some (p, t))
    (own : t.owner ≡ task_owner claims) (live : t.task.status.state ≡ working) where
  key : lookup id h.tasks ≡ some p
  key = (find_task-IsSound lib h id v found).0

  at : get_elem? h.objects p ≡ some t
  at = (find_task-IsSound lib h id v found).1

  completed_found :
      find_task (write h p (with_state t completed)) id ≡ some (p, with_state t completed)
  unfolding find_task
  completed_found =
      rw (key, deref) (rw (get_elem?-set_self h.objects p (with_state t completed) at) refl)

  owned : (t.owner == task_owner claims) ≡ true
  owned = ground (arith, eq_iff t.owner (task_owner claims))

  cancel_of_completed :
      (on_cancel_task lib (write h p (with_state t completed)) claims (some id)).1
      ≡ err task_not_cancelable
  unfolding on_cancel_task cancel_found
  cancel_of_completed = rw (text_ne given, completed_found, owned) refl

  -- For a working task and its owner: after a cancellation the completion finds the task canceled
  -- and changes nothing, and after the completion a cancellation is refused.
  pub first_end_wins :
      let k = (on_cancel_task lib h claims (some id)).0 in
      let c = complete_task h id in
      (complete_task k id ≡ (k, ok canceled))
      × (c.1 ≡ ok completed)
      × ((on_cancel_task lib c.0 claims (some id)).1 ≡ err task_not_cancelable)
  first_end_wins =
      let (tasks, instance) = on_cancel_task-SameKeys lib h claims (some id) in
      (
        complete_task-canceled (on_cancel_task lib h claims (some id)).0 id p (canceled_task t)
            (rw tasks key)
            (cancel-object lib h claims id p t found at own live _
              (on_cancel_task-CancelCase lib h claims id v given))
            refl,
        rw (complete_task-working h id p t key at live) refl,
        rw (complete_task-working h id p t key at live) cancel_of_completed,
      )
