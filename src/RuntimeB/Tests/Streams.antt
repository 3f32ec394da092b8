-- ===== src/RuntimeB/Tests/Streams.antt =====
-- The theorems on streams at concrete inputs.
use ne_kiro_samples.Base.{String, none, some, [], ◌∷◌, ◌++◌, ◌≡◌, ◌≢◌, refl, true}
use ne_kiro_samples.A2a.{working, completed, canceled}
use ne_kiro_samples.Base.Dict.{lookup, insert}
use ne_kiro_samples.RuntimeB.Fixture.{parse_fixture}
use ne_kiro_samples.RuntimeB.Identity.{
  task_owner, derived_id, context_or_derived, cancellation_observation_key,
}
use ne_kiro_samples.RuntimeB.Handler.{
  Handler, RuntimeTask, new_handler, on_cancel_task, create_working_task, find_task, complete_task,
  remove_working_task, take_cancellation_observation, working_task, write, with_state,
}
use ne_kiro_samples.RuntimeB.Handler.Get.{on_get_task}
use ne_kiro_samples.RuntimeB.Clone.{clone_task, clone_message}
use ne_kiro_samples.RuntimeB.Send.{on_send_message}
use ne_kiro_samples.RuntimeB.Stream.{
  Stream, continue, stop, open_stream, resume, at_task, holding, finished,
}
use ne_kiro_samples.RuntimeB.Stream.Script.{StreamFits, script, final_event}
use ne_kiro_samples.RuntimeB.Stream.Resumed.{Resumed}
use ne_kiro_samples.RuntimeB.Stream.Follows.{resume-Resumed}
use ne_kiro_samples.RuntimeB.Stream.Complete.{read, stream_completes}
use ne_kiro_samples.RuntimeB.Stream.Stopped.{stop_frees_id, cancel_ends_hold}
use ne_kiro_samples.RuntimeB.Stream.Opening.{OpenCase, opening, open_stream-OpenCase}
use ne_kiro_samples.RuntimeB.System.{step, run}
use ne_kiro_samples.RuntimeB.Examples.{
  test_library, hold_fields, params_with, test_claims, hold_message, hold_request, stream_request,
  task_of, server_with, task_of-IsSoundTask, server_with-IsSound,
}

-- Everything that a run computes with.
computing : Unit {0}
unfolding lookup insert run step open_stream resume on_cancel_task on_send_message
    create_working_task parse_fixture task_owner derived_id context_or_derived
    cancellation_observation_key clone_task clone_message complete_task remove_working_task
    take_cancellation_observation working_task find_task on_get_task
computing = tt

abbrev streamed_task : RuntimeTask
streamed_task = task_of stream_request

abbrev streaming : Handler
streaming = server_with stream_request

abbrev new_stream : Stream
new_stream = opening new_handler hold_message stream_request

stands : find_task streaming streamed_task.task.id ≡ some (0, streamed_task)
unfolding computing
stands = refl

key : lookup streamed_task.task.id streaming.tasks ≡ some 0
unfolding computing
key = refl

works : streamed_task.task.status.state ≡ working
unfolding computing
works = refl

stream_completes_example : read test_library (streaming, new_stream) 6 ≡ (
  write streaming 0 (with_state streamed_task completed),
  record new_stream {
    place = finished;
    terminal = true;
    events =
        script test_library streaming new_stream streamed_task working
        ++ final_event streamed_task completed ∷ [];
  },
)
stream_completes_example =
    stream_completes test_library streaming new_stream streamed_task refl
      (task_of-IsSoundTask stream_request) works refl key refl refl

abbrev shown_stream : Stream
shown_stream = record new_stream { place = at_task }

stop_frees_id_example :
    let r = resume test_library streaming shown_stream stop in
    (r.1 ≡ record shown_stream { place = finished })
    × (find_task r.0 streamed_task.task.id ≡ none)
    × ((id : String) → id ≢ streamed_task.task.id → find_task r.0 id ≡ find_task streaming id)
stop_frees_id_example =
    stop_frees_id test_library streaming shown_stream streamed_task stands refl works refl refl refl

abbrev held : Handler
held = server_with hold_request

abbrev held_task : RuntimeTask
held_task = task_of hold_request

abbrev waiting : Stream
waiting = record (opening new_handler hold_message hold_request) { place = holding }

held_id-given : held_task.task.id ≢ ""
unfolding computing
held_id-given e = cc

held_found : find_task held held_task.task.id ≡ some (0, held_task)
unfolding computing
held_found = refl

held_owned : held_task.owner ≡ task_owner (some test_claims)
unfolding computing
held_owned = refl

held_works : held_task.task.status.state ≡ working
unfolding computing
held_works = refl

cancel_ends_hold_example :
    let k = (on_cancel_task test_library held (some test_claims) (some held_task.task.id)).0 in
    let r = resume test_library k waiting continue in
    (resume test_library held waiting continue ≡ (held, waiting))
    × (r.0 ≡ k)
    × (r.1.events ≡ [] ++ final_event held_task canceled ∷ [])
    × (resume test_library r.0 r.1 continue ≡ (k, record r.1 { place = finished }))
cancel_ends_hold_example =
    cancel_ends_hold test_library held waiting held_task (some test_claims)
      (server_with-IsSound hold_request) held_id-given held_found refl held_owned held_works refl

open_stream-OpenCase_example :
    OpenCase test_library new_handler
      (some test_claims)
      (params_with "m1" hold_fields)
      (open_stream test_library new_handler (some test_claims) (params_with "m1" hold_fields))
open_stream-OpenCase_example =
    open_stream-OpenCase test_library new_handler (some test_claims) (params_with "m1" hold_fields)

new_stream-StreamFits : StreamFits test_library streaming new_stream
new_stream-StreamFits = record {
  object = streamed_task;
  at = refl;
  streamed = refl;
  fits = refl;
  owns = λ live. key;
  open_ended = λ live e. cc (e, works);
}

resume-Resumed_example :
    Resumed test_library streaming new_stream (resume test_library streaming new_stream continue)
resume-Resumed_example =
    resume-Resumed test_library streaming new_stream continue (server_with-IsSound stream_request)
      new_stream-StreamFits
