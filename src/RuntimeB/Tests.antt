-- ===== src/RuntimeB/Tests.antt =====
-- Runs of the model on concrete requests, and the theorems at concrete inputs.
mod Tables
mod Streams
mod Calls
mod Settings
mod Start
mod Owners
use ne_kiro_samples.Base.{
  String, Option, none, some, List, [], ◌∷◌, ◌++◌, ◌≡◌, ◌≢◌, refl, arith, ok, err, ℕ, map, Outcome,
  ◌==◌, Bool-cases, ◌+◌, ◌≤◌, ◌<◌, ◌⊎◌, inl, inr, length, true, false, ◌↔◌, get_elem?,
  task_not_found, task_not_cancelable, invalid_params, as_router_error, wrapped, router_error,
}
use ne_kiro_samples.A2a.{
  Value, str, Fields, field, end, TaskState, working, completed, canceled, Message, sent_message,
}
use ne_kiro_samples.Base.Dict.{lookup, insert, remove}
use ne_kiro_samples.RuntimeB.Fixture.{parse_fixture, parse_data, SendParams, FixtureRequest}
use ne_kiro_samples.RuntimeB.Fixture.Accepts.{Accepts, parse_fixture_iff}
use ne_kiro_samples.RuntimeB.Identity.{
  task_owner, derived_id, context_or_derived, cancellation_observation_key,
}
use ne_kiro_samples.RuntimeB.Nested.{nested_input, nested_message}
use ne_kiro_samples.RuntimeB.Handler.{
  Handler, RuntimeTask, new_handler, on_cancel_task, create_working_task, find_task, complete_task,
  remove_working_task, take_cancellation_observation, working_task, write, with_state,
}
use ne_kiro_samples.RuntimeB.Handler.Get.{HistoryLength, given, TaskQuery, on_get_task}
use ne_kiro_samples.RuntimeB.Handler.Sound.{IsSound}
use ne_kiro_samples.RuntimeB.Handler.Cancel.{CancelCase, on_cancel_task-CancelCase}
use ne_kiro_samples.RuntimeB.Handler.Observations.{
  observed, cancel_times, observation_counts_requests,
}
use ne_kiro_samples.RuntimeB.Handler.Race.{first_end_wins}
use ne_kiro_samples.RuntimeB.Handler.Access.{on_get_task-owned, tail_of}
use ne_kiro_samples.RuntimeB.Handler.Unseen.{
  Alike, Asked, gets, cancels as asks_cancel, replies, foreign_tasks_unseen,
}
use ne_kiro_samples.RuntimeB.Handler.Lifecycle.{Evolves}
use ne_kiro_samples.RuntimeB.Clone.{clone_task, clone_message}
use ne_kiro_samples.RuntimeB.Clone.Copies.{CopyOf, clone_message_iff}
use ne_kiro_samples.RuntimeB.Send.{on_send_message, send_nested}
use ne_kiro_samples.RuntimeB.Send.Lineage.{Lineage, context_of, request_to, send_nested-Lineage}
use ne_kiro_samples.RuntimeB.Send.Tasks.{SameTasks, on_send_message-SameTasks}
use ne_kiro_samples.RuntimeB.Stream.{
  Stream, continue, stop, context_done, open_stream, resume, StreamEvent, task_event, message_event,
  artifact_event, status_event, error_event, panicked, created, at_task, holding, finished,
}
use ne_kiro_samples.RuntimeB.Stream.Script.{StreamFits, script, final_event}
use ne_kiro_samples.RuntimeB.Stream.Resumed.{Resumed}
use ne_kiro_samples.RuntimeB.Stream.Follows.{resume-Resumed}
use ne_kiro_samples.RuntimeB.Stream.Complete.{read, stream_completes}
use ne_kiro_samples.RuntimeB.Stream.Stopped.{stop_frees_id, cancel_ends_hold}
use ne_kiro_samples.RuntimeB.Stream.Opening.{OpenCase, opening, open_stream-OpenCase}
use ne_kiro_samples.RuntimeB.System.{
  System, Operation, opens, resumes, cancels, sends, step, run, idle,
}
use ne_kiro_samples.RuntimeB.System.Invariant.{IsConsistent, idle-IsConsistent}
use ne_kiro_samples.RuntimeB.System.Reachable.{run-IsConsistent}
use ne_kiro_samples.RuntimeB.System.Tasks.{run-Evolves}
use ne_kiro_samples.RuntimeB.System.Kept.{KeptTasks}
use ne_kiro_samples.RuntimeB.Examples.{
  test_library, test_library-stable, hold_fields, params_with, test_claims, hold_message,
  hold_request, task_of, server_with, test_service, test_config, failing_service,
  new_handler-IsSound, task_of-IsSoundTask, server_with-IsSound,
}

-- Everything that a run computes with.
server : Unit {0}
unfolding working_task find_task on_get_task lookup insert run step open_stream resume
    on_cancel_task on_send_message create_working_task parse_fixture task_owner derived_id
    context_or_derived cancellation_observation_key clone_task clone_message complete_task
    remove_working_task take_cancellation_observation
server = tt

abbrev streamed_fields : Fields
streamed_fields = field "fixture" (str "stream-success") (field "value" (str "v") end)

abbrev full_stream : List Operation
full_stream =
    opens (some test_claims) (params_with "m1" streamed_fields)
    ∷ resumes 0 continue
    ∷ resumes 0 continue
    ∷ resumes 0 continue
    ∷ resumes 0 continue
    ∷ resumes 0 continue
    ∷ resumes 0 continue
    ∷ []

abbrev states : System → List TaskState
states sys = map (λ t. t.task.status.state) sys.handler.objects

full_stream_completes : states (run test_library (idle new_handler) full_stream) ≡ completed ∷ []
unfolding server
full_stream_completes = refl

run-IsConsistent_example :
    IsConsistent test_library (run test_library (idle new_handler) full_stream)
run-IsConsistent_example =
    run-IsConsistent test_library (idle new_handler) full_stream test_library-stable
      (idle-IsConsistent test_library new_handler new_handler-IsSound)

abbrev other_stream : List Operation
other_stream =
    opens (some test_claims) (params_with "m2" streamed_fields)
    ∷ resumes 1 continue
    ∷ resumes 1 context_done
    ∷ []

abbrev completed_system : System
completed_system = run test_library (idle new_handler) full_stream

run-Evolves_example :
    Evolves completed_system.handler.objects
      (run test_library completed_system other_stream).handler.objects
    × KeptTasks completed_system.handler (run test_library completed_system other_stream).handler
run-Evolves_example = run-Evolves test_library completed_system other_stream test_library-stable (
    run-IsConsistent test_library (idle new_handler) full_stream test_library-stable
      (idle-IsConsistent test_library new_handler new_handler-IsSound))

-- The id of the held task.
abbrev held_id : String
held_id = (task_of hold_request).task.id

abbrev held : Handler
held = server_with hold_request

found : find_task held held_id ≡ some (0, task_of hold_request)
unfolding server
found = refl

owned : (task_of hold_request).owner ≡ task_owner (some test_claims)
unfolding server
owned = refl

held_id-given : held_id ≢ ""
unfolding server
held_id-given e = cc

marked : (task_of hold_request).cancel_observation ≢ ""
unfolding server
marked e = cc

is_working_task : (task_of hold_request).task.status.state ≡ working
unfolding server
is_working_task = refl

on_cancel_task-CancelCase_example :
    CancelCase held
      (some test_claims)
      held_id
      (on_cancel_task test_library held (some test_claims) (some held_id))
on_cancel_task-CancelCase_example =
    on_cancel_task-CancelCase test_library held (some test_claims) held_id
      (server_with-IsSound hold_request) held_id-given

observation_counts_requests_example :
    let once =
      take_cancellation_observation
        (cancel_times test_library held (some test_claims) held_id 2)
        (task_of hold_request).cancel_observation in
    (once.1 ≡ observed held (task_of hold_request).cancel_observation + 2)
    × ((take_cancellation_observation once.0 (task_of hold_request).cancel_observation).1 ≡ 0)
observation_counts_requests_example =
    observation_counts_requests test_library held (some test_claims) held_id 2 0
      (task_of hold_request) (server_with-IsSound hold_request) held_id-given found owned marked

first_end_wins_example :
    let k = (on_cancel_task test_library held (some test_claims) (some held_id)).0 in
    let c = complete_task held held_id in
    (complete_task k held_id ≡ (k, ok canceled))
    × (c.1 ≡ ok completed)
    × ((on_cancel_task test_library c.0 (some test_claims) (some held_id)).1
        ≡ err task_not_cancelable)
first_end_wins_example =
    first_end_wins test_library held (some test_claims) held_id 0 (task_of hold_request)
      (server_with-IsSound hold_request) held_id-given found owned is_working_task

-- The caller without a credential sees neither the held task nor a difference from an empty server.
held_unseen : Alike none held new_handler
unfolding server
held_unseen id = elim (Bool-cases (held_id == id)) [
  | inl same ↦ rw same refl
  | inr other ↦ rw other refl
]

abbrev asked : List Asked
asked =
    gets (some (record { id = held_id; history_length = given 1 }))
    ∷ asks_cancel (some held_id)
    ∷ asks_cancel none
    ∷ []

foreign_tasks_unseen_example :
    replies test_library none held asked ≡ replies test_library none new_handler asked
foreign_tasks_unseen_example =
    foreign_tasks_unseen test_library none held new_handler asked (server_with-IsSound hold_request)
      new_handler-IsSound held_unseen

on_get_task-owned_example :
    ((1 ≤ 1)
      × (on_get_task test_library held
            (some test_claims)
            (some (record { id = held_id; history_length = given 1 }))
          ≡ ok (tail_of (task_of hold_request).task 1))
      × (length (tail_of (task_of hold_request).task 1).history ≡ 1))
    ⊎ ((1 < 1)
        × (on_get_task test_library held
              (some test_claims)
              (some (record { id = held_id; history_length = given 1 }))
            ≡ err (invalid_params "historyLength exceeds available history")))
unfolding server
on_get_task-owned_example =
    on_get_task-owned test_library held (some test_claims) held_id 1 0 (task_of hold_request)
      (server_with-IsSound hold_request) held_id-given found owned

parse_fixture_iff_example :
    (parse_fixture test_library (params_with "m1" hold_fields) ≡ ok (hold_message, hold_request))
    ↔ Accepts test_library (params_with "m1" hold_fields) hold_message hold_request
parse_fixture_iff_example =
    parse_fixture_iff test_library (params_with "m1" hold_fields) hold_message hold_request

clone_message_iff_example :
    (clone_message test_library hold_message ≡ ok hold_message)
    ↔ CopyOf test_library hold_message hold_message
clone_message_iff_example = clone_message_iff test_library hold_message hold_message

on_send_message-SameTasks_example :
    SameTasks held
      (on_send_message test_library held (some test_claims) (params_with "m1" hold_fields)).0
on_send_message-SameTasks_example =
    on_send_message-SameTasks test_library held (some test_claims) (params_with "m1" hold_fields)
