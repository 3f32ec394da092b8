-- ===== src/RuntimeB/Handler/Get.antt =====
-- runtime-b/handler.go: tasks/get.
use ne_kiro_samples.Base.{
  ℕ, String, not, Option, none, some, ◌==◌, if◌then◌else◌, length, drop, leb, ◌-◌, Outcome, ok, err,
  invalid_params, task_not_found, guard, ◌>>=◌, ◌>>◌,
}
use ne_kiro_samples.A2a.{Task}
use ne_kiro_samples.Platform.{Claims, Library}
use ne_kiro_samples.RuntimeB.Identity.{task_owner}
use ne_kiro_samples.RuntimeB.Clone.{clone_task}
use ne_kiro_samples.RuntimeB.Handler.{Handler, RuntimeTask, find_task}

-- A *int of the query: nil, negative, or a number.
pub data HistoryLength : Type 0 where
  absent negative : HistoryLength
  given : ℕ → HistoryLength

pub record TaskQuery : Type 0 where
  pub id : String
  pub history_length : HistoryLength

abbrev history_given : HistoryLength → Outcome ℕ
history_given (given n) = ok n
history_given _ = err (invalid_params "a non-negative historyLength is required")

abbrev pub owned_by : Option Claims → Option (ℕ × RuntimeTask) → Outcome RuntimeTask
owned_by claims none = err task_not_found
owned_by claims (some (p, stored)) =
    if stored.owner == task_owner claims then ok stored else err task_not_found

-- The operation changes nothing, so its state is left out; the lock that a panic of the copy would
-- leave held is not modelled.
unfoldable pub on_get_task : Library → Handler → Option Claims → Option TaskQuery → Outcome Task
unfolding find_task
on_get_task lib h claims none = err (invalid_params "task id is required")
on_get_task lib h claims (some query) = do
  guard (not (query.id == "")) (invalid_params "task id is required")
  wanted ← history_given query.history_length
  stored ← owned_by claims (find_task h query.id)
  task ← clone_task lib stored.task
  guard (leb wanted (length task.history))
      (invalid_params "historyLength exceeds available history")
  ok (record task { history = drop (length task.history - wanted) task.history })
