-- ===== src/RuntimeB/Registry.antt =====
-- What the handler promises of its tasks, as a table: the owner, the marker and the state of each task
-- id, and a count for each marker. Pointers, channels, contents and the maps' lists are forgotten.
-- `Call` names the operations of runtime-b/handler.go that change the tasks, and `perform` runs them.
pub mod Shows
pub mod Refines
use ne_kiro_samples.Base.{
  ℕ, String, ◌+◌, ◌==◌, if◌then◌else◌, Option, none, some, List, [], ◌∷◌, Outcome, ok, err, panic,
  plain, invalid_params, task_not_found, task_not_cancelable,
}
use ne_kiro_samples.A2a.{Message, Task, TaskState, working, completed, canceled, other_state}
use ne_kiro_samples.Platform.{Library, Claims}
use ne_kiro_samples.RuntimeB.Identity.{derived_id, task_owner}
use ne_kiro_samples.RuntimeB.Fixture.{FixtureRequest}
use ne_kiro_samples.RuntimeB.Clone.{clone_message}
use ne_kiro_samples.RuntimeB.Handler.{
  Handler, on_cancel_task, create_working_task, complete_task, remove_working_task, observation_of,
  take_cancellation_observation, is_working,
}

pub data Call : Type 0 where
  creates : Option Claims → Message → FixtureRequest → Call
  cancels : Option Claims → String → Call
  completes removes takes : String → Call

-- What a caller sees of a result.
pub data Seen : Type 0 where
  nothing : Seen
  state : TaskState → Seen
  count : ℕ → Seen

abbrev pub seen_as {ℓ} : {A : Type ℓ} → (A → Seen) → Outcome A → Outcome Seen
seen_as f (ok a) = ok (f a)
seen_as f (err e) = err e
seen_as f (panic m) = panic m

abbrev pub seen_step {ℓ} : {A : Type ℓ} → (A → Seen) → Handler × Outcome A → Handler × Outcome Seen
seen_step f (h, o) = (h, seen_as f o)

abbrev pub counted : Handler × ℕ → Handler × Outcome Seen
counted (h, n) = (h, ok (count n))

unfoldable pub perform : Library → Handler → Call → Handler × Outcome Seen
perform lib h (creates claims message request) =
    seen_step (λ p. nothing) (create_working_task lib h claims message request)
perform lib h (cancels claims id) =
    seen_step (λ t. state t.status.state) (on_cancel_task lib h claims (some id))
perform lib h (completes id) = seen_step state (complete_task h id)
perform lib h (removes id) = (remove_working_task h id, ok nothing)
perform lib h (takes key) = counted (take_cancellation_observation h key)

pub record Entry : Type 0 where
  pub owner : String
  pub marker : String
  pub phase : TaskState

pub record Table : Type 0 where
  pub tasks : String → Option Entry
  pub counts : String → ℕ

abbrev pub put : Table → String → Option Entry → Table
put r id e = record r { tasks = λ j. if id == j then e else r.tasks j }

abbrev pub put_count : Table → String → ℕ → Table
put_count r key n = record r { counts = λ j. if key == j then n else r.counts j }

abbrev pub mark : Table → String → Table
mark r marker = if marker == "" then r else put_count r marker (r.counts marker + 1)

abbrev pub in_phase : Entry → TaskState → Entry
in_phase e phase = record e { phase = phase }

abbrev pub specify_create :
    Table → String → Entry → Outcome Message → Option Entry → Table × Outcome Seen
specify_create r id e (err failed) held = (r, err failed)
specify_create r id e (panic m) held = (r, panic m)
specify_create r id e (ok cloned) none = (put r id (some e), ok nothing)
specify_create r id e (ok cloned) (some other) =
    (r, err (invalid_params "messageId already identifies a runtime task"))

abbrev pub specify_cancel : Table → String → String → Option Entry → Table × Outcome Seen
specify_cancel r id owner none = (r, err task_not_found)
specify_cancel r id owner (some e) =
    if e.owner == owner
    then (if is_working e.phase
        then (put (mark r e.marker) id (some (in_phase e canceled)), ok (state canceled))
        else (mark r e.marker, err task_not_cancelable))
    else (r, err task_not_found)

abbrev pub specify_complete : Table → String → Option Entry → Table × Outcome Seen
specify_complete r id none = (r, err (plain "runtime task disappeared"))
specify_complete r id (some e) = elim e.phase [
  | working ↦ (put r id (some (in_phase e completed)), ok (state completed))
  | canceled ↦ (r, ok (state canceled))
  | completed ↦ (r, err (plain "runtime task is not working"))
  | other_state s ↦ (r, err (plain "runtime task is not working"))
]

abbrev pub specify_remove : Table → String → Option Entry → Table × Outcome Seen
specify_remove r id none = (r, ok nothing)
specify_remove r id (some e) = (if is_working e.phase then put r id none else r, ok nothing)

abbrev pub new_entry : Option Claims → FixtureRequest → Entry
new_entry claims request = record {
  owner = task_owner claims;
  marker = observation_of claims request.kind request.value;
  phase = working;
}

-- What each call does to the table.
unfoldable pub specify : Library → Table → Call → Table × Outcome Seen
specify lib r (creates claims message request) =
    specify_create r (derived_id lib "task" message.id) (new_entry claims request)
      (clone_message lib message) (r.tasks (derived_id lib "task" message.id))
specify lib r (cancels claims id) =
    if id == ""
    then (r, err (invalid_params "task id is required"))
    else specify_cancel r id (task_owner claims) (r.tasks id)
specify lib r (completes id) = specify_complete r id (r.tasks id)
specify lib r (removes id) = specify_remove r id (r.tasks id)
specify lib r (takes key) = (put_count r key 0, ok (count (r.counts key)))

-- The results of a sequence of calls, and the state that it leaves.
unfoldable pub perform_all : Library → Handler → List Call → Handler × List (Outcome Seen)
unfolding perform
perform_all lib h [] = (h, [])
perform_all lib h (c ∷ cs) =
    let (k, o) = perform lib h c in let (last, os) = perform_all lib k cs in (last, o ∷ os)

unfoldable pub specify_all : Library → Table → List Call → Table × List (Outcome Seen)
unfolding specify
specify_all lib r [] = (r, [])
specify_all lib r (c ∷ cs) =
    let (s, o) = specify lib r c in let (last, os) = specify_all lib s cs in (last, o ∷ os)
