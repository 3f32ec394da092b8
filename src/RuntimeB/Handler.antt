-- ===== src/RuntimeB/Handler.antt =====
-- runtime-b/handler.go: the handler's state, and its operations but for tasks/get, messages and streams.
-- A *runtimeTask is an index into `objects`, which holds every task ever made, so that the map and
-- a running stream share one; `tasks` and `cancellations` are the two maps. Each operation runs
-- under the handler's lock, so it is one step from a state to a state. A nil and an empty
-- `cancellations` map are one here, as they are to the operations.
pub mod Sound
pub mod Get
pub mod Cancel
pub mod Observations
pub mod Access
pub mod Unseen
pub mod Keys
pub mod Lifecycle
pub mod Preserve
pub mod Race
pub mod Created
use ne_kiro_samples.Base.{
  ℕ, String, Bool, true, false, not, Option, none, some, List, [], ◌∷◌, ◌++◌, ◌==◌, ◌+◌,
  if◌then◌else◌, length, get_elem?, set, drop, leb, ltb, ◌-◌, Outcome, ok, err, panic, Error, plain,
  invalid_params, task_not_found, task_not_cancelable, unsupported_operation, guard, or_fail, ◌>>=◌,
  ◌>>◌,
}
use ne_kiro_samples.Base.Dict.{lookup, insert, remove}
use ne_kiro_samples.A2a.{
  Value, str, int, bool, field, end, data_part, agent, Message, Task, TaskState, TaskStatus,
  working, completed, canceled, other_state, SendResult, sent_message, sent_task,
}
use ne_kiro_samples.Platform.{Claims, Library}
use ne_kiro_samples.RuntimeB.Identity.{
  derived_id, context_or_derived, task_owner, cancellation_observation_key,
}
use ne_kiro_samples.RuntimeB.Fixture.{
  FixtureKind, success, stream_success, failure, protocol, hold, cancel_observed, interrupted,
  nested, kind_text, FixtureRequest, SendParams, parse_fixture,
}
use ne_kiro_samples.RuntimeB.Clone.{clone_message, clone_task}
use ne_kiro_samples.RuntimeB.Nested.{
  NestedService, platform_context, invoke, nested_message, safe_nested_failure,
}

-- `closed`: the cancel channel is closed.
pub record RuntimeTask : Type 0 where
  pub task : Task
  pub closed : Bool
  pub owner : String
  pub cancel_observation : String

pub record Handler : Type 0 where
  pub objects : List RuntimeTask
  pub tasks : List (String × ℕ)
  pub cancellations : List (String × ℕ)
  pub agent_id : String
  pub instance_id : String
  pub nested : Option NestedService

abbrev pub new_handler : Handler
new_handler = record {
  objects = [];
  tasks = [];
  cancellations = [];
  agent_id = "";
  instance_id = "runtime-b";
  nested = none;
}

abbrev pub is_working : TaskState → Bool
is_working working = true
is_working _ = false

abbrev pub is_canceled : TaskState → Bool
is_canceled canceled = true
is_canceled _ = false

abbrev pub status_of : TaskState → TaskStatus
status_of state = record { state = state; message = none; timestamp = none }

-- stored, exists := h.tasks[id], with the pointer.
abbrev pub deref : List RuntimeTask → Option ℕ → Option (ℕ × RuntimeTask)
deref objects none = none
deref objects (some p) = elim (get_elem? objects p) [ none ↦ none | some stored ↦ some (p, stored) ]

unfoldable pub find_task : Handler → String → Option (ℕ × RuntimeTask)
find_task h id = deref h.objects (lookup id h.tasks)

-- *p = stored
abbrev pub write : Handler → ℕ → RuntimeTask → Handler
write h p stored = record h { objects = set h.objects p stored }

abbrev pub with_state : RuntimeTask → TaskState → RuntimeTask
with_state stored state = record stored { task = record stored.task { status = status_of state } }

-- m[key] of a map[string]int: a missing key reads 0.
abbrev pub count_of : String → List (String × ℕ) → ℕ
count_of key m = elim (lookup key m) [ none ↦ 0 | some n ↦ n ]

-- The count of cancellations is taken also for a task that can no longer be canceled. It has no bound
-- here; the source's int wraps at 2^63.
unfoldable pub count_cancellation : Handler → RuntimeTask → Handler
count_cancellation h stored = if stored.cancel_observation == "" then h else record h {
  cancellations =
      insert stored.cancel_observation (count_of stored.cancel_observation h.cancellations + 1)
        h.cancellations;
}

-- `close` of a closed channel panics.
unfoldable pub close_canceled : Library → Handler → ℕ → RuntimeTask → Handler × Outcome Task
close_canceled lib h p stored =
    if stored.closed
    then (write h p stored, panic "close of closed channel")
    else (write h p (record stored { closed = true }), clone_task lib stored.task)

unfoldable pub cancel_found :
    Library → Handler → Option Claims → Option (ℕ × RuntimeTask) → Handler × Outcome Task
unfolding count_cancellation close_canceled
cancel_found lib h claims none = (h, err task_not_found)
cancel_found lib h claims (some (p, stored)) =
    if not (stored.owner == task_owner claims)
    then (h, err task_not_found)
    else let counted = count_cancellation h stored in
      if is_working stored.task.status.state
      then close_canceled lib counted p (with_state stored canceled)
      else (counted, err task_not_cancelable)

-- The parameter is params.ID; a nil pointer is `none`.
unfoldable pub on_cancel_task :
    Library → Handler → Option Claims → Option String → Handler × Outcome Task
unfolding cancel_found find_task
on_cancel_task lib h claims none = (h, err (invalid_params "task id is required"))
on_cancel_task lib h claims (some id) =
    if id == ""
    then (h, err (invalid_params "task id is required"))
    else cancel_found lib h claims (find_task h id)

-- The key under which cancellations of a hold task are counted; "" counts none.
unfoldable pub observation_of : Option Claims → FixtureKind → Value → String
observation_of claims hold (str marker) =
    if marker == "" then "" else cancellation_observation_key claims marker
observation_of claims _ _ = ""

unfoldable pub working_task :
    Library → Option Claims → Message → Message → FixtureRequest → RuntimeTask
unfolding observation_of
working_task lib claims message cloned request = record {
  task = record {
    id = derived_id lib "task" message.id;
    context_id = context_or_derived lib message.context_id message.id;
    status = status_of working;
    history = cloned ∷ [];
    artifacts = none;
    metadata = none;
  };
  closed = false;
  owner = task_owner claims;
  cancel_observation = observation_of claims request.kind request.value;
}

unfoldable pub store_task : Handler → RuntimeTask → Handler × Outcome ℕ
store_task h stored = elim (lookup stored.task.id h.tasks) [
  | some _ ↦ (h, err (invalid_params "messageId already identifies a runtime task"))
  | none ↦ (
    record h {
      objects = h.objects ++ stored ∷ [];
      tasks = insert stored.task.id (length h.objects) h.tasks;
    },
    ok (length h.objects),
  )
]

abbrev pub store_copied :
    Library
    → Handler
    → Option Claims
    → Message
    → FixtureRequest
    → Outcome Message
    → Handler × Outcome ℕ
store_copied lib h claims message request (ok cloned) =
    store_task h (working_task lib claims message cloned request)
store_copied lib h claims message request (err e) = (h, err e)
store_copied lib h claims message request (panic m) = (h, panic m)

-- The result is the pointer of the new task.
unfoldable pub create_working_task :
    Library → Handler → Option Claims → Message → FixtureRequest → Handler × Outcome ℕ
unfolding working_task store_task
create_working_task lib h claims message request =
    store_copied lib h claims message request (clone_message lib message)

unfoldable pub take_cancellation_observation : Handler → String → Handler × ℕ
take_cancellation_observation h marker =
    (record h { cancellations = remove marker h.cancellations }, count_of marker h.cancellations)

abbrev pub complete_found : Handler → Option (ℕ × RuntimeTask) → Handler × Outcome TaskState
complete_found h none = (h, err (plain "runtime task disappeared"))
complete_found h (some (p, stored)) = elim stored.task.status.state [
  | canceled ↦ (h, ok canceled)
  | working ↦ (write h p (with_state stored completed), ok completed)
  | completed ↦ (h, err (plain "runtime task is not working"))
  | other_state _ ↦ (h, err (plain "runtime task is not working"))
]

unfoldable pub complete_task : Handler → String → Handler × Outcome TaskState
unfolding find_task
complete_task h id = complete_found h (find_task h id)

abbrev pub remove_found : Handler → String → Option (ℕ × RuntimeTask) → Handler
remove_found h id none = h
remove_found h id (some (p, stored)) =
    if is_working stored.task.status.state then record h { tasks = remove id h.tasks } else h

unfoldable pub remove_working_task : Handler → String → Handler
unfolding find_task
remove_working_task h id = remove_found h id (find_task h id)
