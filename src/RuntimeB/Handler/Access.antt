-- ===== src/RuntimeB/Handler/Access.antt =====
-- tasks/get of a task's owner: it returns the end of the history that was asked for.
use ne_kiro_samples.Base.{
  ℕ, String, true, ◌≡◌, refl, ◌≢◌, inl, inr, ◌⊎◌, Option, some, ◌==◌, length, drop, ◌-◌, ◌≤◌, ◌<◌,
  ok, err, arith, Bool-cases, text_ne, eq_iff, invalid_params, leb, length-drop,
}
use ne_kiro_samples.A2a.{Task}
use ne_kiro_samples.Platform.{Library, Claims}
use ne_kiro_samples.RuntimeB.Identity.{task_owner}
use ne_kiro_samples.RuntimeB.Handler.{RuntimeTask, Handler, find_task}
use ne_kiro_samples.RuntimeB.Handler.Get.{given, TaskQuery, on_get_task}
use ne_kiro_samples.RuntimeB.Handler.Sound.{IsSound, find_task-IsSound, clone_task_lem}

abbrev query_of : String → ℕ → Option TaskQuery
query_of id n = some (record { id = id; history_length = given n })

abbrev pub tail_of : Task → ℕ → Task
tail_of task n = record task { history = drop (length task.history - n) task.history }

-- The owner of a task is given the task as it stands, with the last n messages of its history, for
-- every n up to the history's length, and an error for every other n.
pub on_get_task-owned :
    (lib : Library) (h : Handler) (claims : Option Claims) (id : String) (n p : ℕ) (t : RuntimeTask)
    → IsSound lib h
    → id ≢ ""
    → find_task h id ≡ some (p, t)
    → t.owner ≡ task_owner claims
    → ((n ≤ length t.task.history)
        × (on_get_task lib h claims (query_of id n) ≡ ok (tail_of t.task n))
        × (length (tail_of t.task n).history ≡ n))
      ⊎ ((length t.task.history < n)
          × (on_get_task lib h claims (query_of id n)
              ≡ err (invalid_params "historyLength exceeds available history")))
unfolding on_get_task
on_get_task-owned lib h claims id n p t v given_id found own =
    let (key, at, same, sound) = find_task-IsSound lib h id v found in
    rw (text_ne given_id, found, owned, clone_task_lem lib t sound)
      (elim (Bool-cases (leb n (length t.task.history))) [
        | inl fits ↦
            let small : n ≤ length t.task.history = ground arith in
            inl (
              small,
              rw fits refl,
              omega (arith, length-drop (length t.task.history - n) t.task.history),
            )
        | inr over ↦ inr (ground arith, rw over refl)
      ])
  where
    owned : (t.owner == task_owner claims) ≡ true
    owned = ground (arith, eq_iff t.owner (task_owner claims))
