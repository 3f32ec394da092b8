-- ===== src/RuntimeB/Handler/Observations.antt =====
-- The counts of cancellations that the cancel-observed fixture reads.
use ne_kiro_samples.Base.{
  ℕ, zero, suc, String, ◌≡◌, refl, ◌≢◌, ◌+◌, Option, some, List, arith, eq_refl, Outcome, text_ne,
  ap, sym, ◌∙◌, subst,
}
use ne_kiro_samples.Base.Dict.{insert, remove, lookup-insert, lookup-remove}
use ne_kiro_samples.A2a.{Task}
use ne_kiro_samples.Platform.{Library, Claims}
use ne_kiro_samples.RuntimeB.Identity.{task_owner}
use ne_kiro_samples.RuntimeB.Handler.{
  RuntimeTask, Handler, find_task, on_cancel_task, count_cancellation, count_of,
  take_cancellation_observation, deref,
}
use ne_kiro_samples.RuntimeB.Handler.Sound.{IsSound, find_task-IsSound}
use ne_kiro_samples.RuntimeB.Handler.Lifecycle.{on_cancel_task-Evolves}
use ne_kiro_samples.RuntimeB.Handler.Keys.{on_cancel_task-SameKeys}
use ne_kiro_samples.RuntimeB.Handler.Preserve.{on_cancel_task-IsSound}
use ne_kiro_samples.RuntimeB.Handler.Cancel.{
  CancelCase, unknown, foreign, ended, stopped, on_cancel_task-CancelCase,
}

abbrev pub observed : Handler → String → ℕ
observed h key = count_of key h.cancellations

count_of-insert : (k : String) (n : ℕ) (m : List (String × ℕ)) → count_of k (insert k n m) ≡ n
count_of-insert k n m = ground (arith, lookup-insert k k n m, eq_refl k)

count_cancellation-observed :
    (h : Handler) (t : RuntimeTask)
    → t.cancel_observation ≢ ""
    → observed (count_cancellation h t) t.cancel_observation ≡ observed h t.cancel_observation + 1
unfolding count_cancellation
count_cancellation-observed h t given =
    rw (text_ne given)
      (count_of-insert t.cancel_observation (observed h t.cancel_observation + 1) h.cancellations)

count_of-remove : (k : String) (m : List (String × ℕ)) → count_of k (remove k m) ≡ 0
count_of-remove k m = ground (arith, lookup-remove k k m, eq_refl k)

-- n requests to cancel one task, one after the other.
pub cancel_times : Library → Handler → Option Claims → String → ℕ → Handler
cancel_times lib h claims id zero = h
cancel_times lib h claims id (suc n) =
    cancel_times lib (on_cancel_task lib h claims (some id)).0 claims id n

-- One more request of the owner is counted, whether or not the task can still be canceled.
cancel-observed :
    (lib : Library) (h : Handler) (claims : Option Claims) (id : String) (p : ℕ) (t : RuntimeTask)
    → IsSound lib h
    → id ≢ ""
    → find_task h id ≡ some (p, t)
    → t.owner ≡ task_owner claims
    → t.cancel_observation ≢ ""
    → observed (on_cancel_task lib h claims (some id)).0 t.cancel_observation
      ≡ observed h t.cancel_observation + 1
cancel-observed lib h claims id p t v given found own marked =
    counted _ (on_cancel_task-CancelCase lib h claims id v given)
  where
    same_task : (q : ℕ) (u : RuntimeTask) → find_task h id ≡ some (q, u) → t ≡ u
    same_task q u there = cc

    one_more :
        (q : ℕ) (u : RuntimeTask)
        → find_task h id ≡ some (q, u)
        → observed (count_cancellation h u) t.cancel_observation
          ≡ observed h t.cancel_observation + 1
    one_more q u there =
        subst
          (λ w.
            observed (count_cancellation h w) t.cancel_observation
            ≡ observed h t.cancel_observation + 1)
          (same_task q u there) (count_cancellation-observed h t marked)

    counted :
        (r : Handler × Outcome Task)
        → CancelCase h claims id r
        → observed r.0 t.cancel_observation ≡ observed h t.cancel_observation + 1
    counted r (unknown missing e) = cc
    counted r (foreign q u there other e) =
        absurd (other (ap (λ x. x.owner) (sym (same_task q u there)) ∙ own))
    counted r (ended q u there mine over e) = rw e (one_more q u there)
    counted r (stopped q u there mine live e) = rw e (one_more q u there)

-- After a request the task is found again, with the same owner and observation.
cancel-find_task :
    (lib : Library) (h : Handler) (claims : Option Claims) (id : String) (p : ℕ) (t : RuntimeTask)
    → IsSound lib h
    → find_task h id ≡ some (p, t)
    → (u : RuntimeTask) × (find_task (on_cancel_task lib h claims (some id)).0 id ≡ some (p, u))
      × (u.owner ≡ t.owner)
      × (u.cancel_observation ≡ t.cancel_observation)
unfolding find_task
cancel-find_task lib h claims id p t v found =
    let (key, at, same, sound) = find_task-IsSound lib h id v found in
    let (u, there, c) = on_cancel_task-Evolves lib v claims (some id) p t at in
    let (tasks, instance) = on_cancel_task-SameKeys lib h claims (some id) in
    (u, rw (tasks, key) (rw (there, deref) refl), c.same_owner, c.same_observation)

cancel_times-observed :
    (lib : Library) (h : Handler) (claims : Option Claims) (id : String) (n p : ℕ) (t : RuntimeTask)
    → IsSound lib h
    → id ≢ ""
    → find_task h id ≡ some (p, t)
    → t.owner ≡ task_owner claims
    → t.cancel_observation ≢ ""
    → observed (cancel_times lib h claims id n) t.cancel_observation
      ≡ observed h t.cancel_observation + n
unfolding cancel_times
cancel_times-observed lib h claims id zero p t v given found own marked = omega arith
cancel_times-observed lib h claims id (suc n) p t v given found own marked =
    let (u, there, owner, mark) = cancel-find_task lib h claims id p t v found in
    let k = (on_cancel_task lib h claims (some id)).0 in
    let rest =
      cancel_times-observed lib k claims id n p u (on_cancel_task-IsSound lib v claims (some id))
        given there (owner ∙ own) (λ e. marked (sym mark ∙ e)) in
    let first = cancel-observed lib h claims id p t v given found own marked in
    let moved =
      subst (λ (m : String). observed (cancel_times lib k claims id n) m ≡ observed k m + n) mark
        rest in
    omega (arith, first, moved)

-- The owner's n requests to cancel a marked task, the rejected duplicates among them, are counted:
-- reading the observation then gives n more than was there, and a second reading gives 0.
pub observation_counts_requests :
    (lib : Library) (h : Handler) (claims : Option Claims) (id : String) (n p : ℕ) (t : RuntimeTask)
    → IsSound lib h
    → id ≢ ""
    → find_task h id ≡ some (p, t)
    → t.owner ≡ task_owner claims
    → t.cancel_observation ≢ ""
    → let once =
        take_cancellation_observation (cancel_times lib h claims id n) t.cancel_observation in
      (once.1 ≡ observed h t.cancel_observation + n)
      × ((take_cancellation_observation once.0 t.cancel_observation).1 ≡ 0)
unfolding take_cancellation_observation
observation_counts_requests lib h claims id n p t v given found own marked = (
  cancel_times-observed lib h claims id n p t v given found own marked,
  count_of-remove t.cancel_observation (cancel_times lib h claims id n).cancellations,
)
