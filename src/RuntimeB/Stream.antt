-- ===== src/RuntimeB/Stream.antt =====
-- runtime-b/handler.go, OnSendMessageStream: the iterator as a machine that stops at each `yield`
-- and at the `select` of a hold task. A `Stream` is the running iterator: its pointer to the task,
-- its request, where it stands, the `terminal` flag of its deferred clean-up, and the events that
-- it has yielded. Between two steps other operations may run; within a step only what happens
-- under the handler's lock, or reads fields that never change, besides the cancel channel.
pub mod Script
pub mod Resumed
pub mod Steps
pub mod Follows
pub mod Opening
pub mod Complete
pub mod Stopped
use ne_kiro_samples.Base.{
  ℕ, String, Bool, true, false, not, Option, none, some, List, [], ◌∷◌, ◌++◌, ◌&&◌, if◌then◌else◌,
  get_elem?, Outcome, ok, err, panic, Error, invalid_params, ◌⊎◌, inl, inr,
}
use ne_kiro_samples.A2a.{
  str, int, field, end, data_part, agent, Message, Task, TaskState, canceled, StatusUpdate,
  ArtifactUpdate,
}
use ne_kiro_samples.Platform.{Claims, Library}
use ne_kiro_samples.RuntimeB.Identity.{derived_id}
use ne_kiro_samples.RuntimeB.Fixture.{
  FixtureKind, stream_success, failure, hold, interrupted, kind_text, FixtureRequest, SendParams,
  parse_fixture,
}
use ne_kiro_samples.RuntimeB.Clone.{clone_task}
use ne_kiro_samples.RuntimeB.Handler.{
  Handler, RuntimeTask, status_of, create_working_task, complete_task, remove_working_task,
}
use ne_kiro_samples.RuntimeB.Send.{fixture_failure}
pub use ne_kiro_samples.RuntimeB.Events.{
  StreamEvent, task_event, message_event, artifact_event, status_event, error_event, panicked,
}
unfoldable pub use ne_kiro_samples.RuntimeB.Events.{stream_message, artifact_update, status_update}

-- Where the iterator stands: before its first yield, at a yield (named by what was yielded), in
-- the select, at its last yield, or returned.
pub data Place : Type 0 where
  created at_task holding at_message at_artifact at_last closing finished : Place

pub record Stream : Type 0 where
  pub pointer : ℕ
  pub message : Message
  pub request : FixtureRequest
  pub place : Place
  pub terminal : Bool
  pub events : List StreamEvent

-- What resumes the iterator: `yield` returned true or false, or ctx.Done() was chosen.
pub data Signal : Type 0 where
  continue stop context_done : Signal

abbrev pub is_hold : FixtureKind → Bool
is_hold hold = true
is_hold _ = false

abbrev pub is_streamed : FixtureKind → Bool
is_streamed stream_success = true
is_streamed hold = true
is_streamed interrupted = true
is_streamed _ = false

abbrev is_failure : FixtureKind → Bool
is_failure failure = true
is_failure _ = false

abbrev pub is_interrupted : FixtureKind → Bool
is_interrupted interrupted = true
is_interrupted _ = false

abbrev start : Message → FixtureRequest → Handler × Outcome ℕ → Handler × (Stream ⊎ StreamEvent)
start message request (h, ok p) = (
  h,
  inl (record {
    pointer = p;
    message = message;
    request = request;
    place = created;
    terminal = false;
    events = [];
  }),
)
start message request (h, err e) = (h, inr (error_event e))
start message request (h, panic m) = (h, inr (panicked m))

abbrev open_parsed :
    Library → Handler → Option Claims → Message → FixtureRequest → Handler × (Stream ⊎ StreamEvent)
open_parsed lib h claims message request =
    if is_failure request.kind
    then (h, inr (error_event fixture_failure))
    else if not (is_streamed request.kind)
    then (h, inr (error_event (invalid_params "fixture requires message/send")))
    else start message request (create_working_task lib h claims message request)

abbrev open_from :
    Library
    → Handler
    → Option Claims
    → Outcome (Message × FixtureRequest)
    → Handler × (Stream ⊎ StreamEvent)
open_from lib h claims (ok (message, request)) = open_parsed lib h claims message request
open_from lib h claims (err e) = (h, inr (error_event e))
open_from lib h claims (panic m) = (h, inr (panicked m))

-- Up to the creation of the task: a running iterator, or its only event, an error.
unfoldable pub open_stream :
    Library → Handler → Option Claims → Option SendParams → Handler × (Stream ⊎ StreamEvent)
open_stream lib h claims params = open_from lib h claims (parse_fixture lib params)

abbrev emit : Stream → StreamEvent → Place → Stream
emit s e place = record s { events = s.events ++ e ∷ []; place = place }

-- The last event of a task that has ended: the deferred clean-up leaves the task alone.
abbrev emit_final : Stream → Task → TaskState → Stream
emit_final s task state = record (emit s (status_event (status_update task state true)) closing) {
  terminal = true;
}

-- The deferred function, run when the iterator returns.
unfoldable pub run_deferred : Handler → Stream → String → Handler × Stream
run_deferred h s id = (
  if not s.terminal && not (is_hold s.request.kind) then remove_working_task h id else h,
  record s { place = finished },
)

abbrev pub first_yield : Outcome Task → Handler → Stream → String → Handler × Stream
first_yield (ok copy) h s id = (h, emit s (task_event copy) at_task)
first_yield (err e) h s id = run_deferred h s id
first_yield (panic m) h s id = run_deferred h (emit s (panicked m) created) id

-- `if taskCanceled(task) { … }` before an event of a stream-success fixture.
abbrev pub unless_canceled : RuntimeTask → Handler → Stream → StreamEvent → Place → Handler × Stream
unless_canceled stored h s e place =
    if stored.closed then (h, emit_final s stored.task canceled) else (h, emit s e place)

abbrev pub last_yield : Outcome TaskState → Handler → Stream → Task → Handler × Stream
last_yield (ok state) h s task = (h, emit_final s task state)
last_yield (err e) h s task = (h, emit s (error_event e) closing)
last_yield (panic m) h s task = (h, emit s (panicked m) closing)

module _ (lib : Library) (h : Handler) (s : Stream) (stored : RuntimeTask) where
  abbrev artifact_at : Bool → Bool → ℕ → StreamEvent
  artifact_at appends last sequence = artifact_event (
      artifact_update h stored.task (derived_id lib "artifact" s.message.id) s.request appends last
        sequence)

  abbrev pub after_task_of : FixtureKind → Handler × Stream
  after_task_of hold = (h, record s { place = holding })
  after_task_of interrupted =
      (h, emit s (message_event (stream_message lib h stored.task s.request)) at_message)
  after_task_of _ =
      unless_canceled stored h s (message_event (stream_message lib h stored.task s.request))
        at_message

  abbrev after_task : Handler × Stream
  after_task = after_task_of s.request.kind

  abbrev pub after_message : Handler × Stream
  after_message =
      if is_interrupted s.request.kind
      then (h, emit s (artifact_at false false 0) at_artifact)
      else unless_canceled stored h s (artifact_at false false 0) at_artifact

  abbrev pub after_artifact : Handler × Stream
  after_artifact =
      if is_interrupted s.request.kind
      then run_deferred h s stored.task.id
      else unless_canceled stored h s (artifact_at true true 1) at_last

  abbrev pub after_last : Handler × Stream
  after_last = let (h', state) = complete_task h stored.task.id in last_yield state h' s stored.task

  -- The select: it waits until the context ends or the cancel channel is closed; if both hold
  -- either may be chosen.
  abbrev pub select_hold : Signal → Handler × Stream
  select_hold context_done = run_deferred h s stored.task.id
  select_hold _ = if stored.closed then (h, emit_final s stored.task canceled) else (h, s)

  abbrev pub unless_stopped : Signal → Handler × Stream → Handler × Stream
  unless_stopped stop next = run_deferred h s stored.task.id
  unless_stopped _ next = next

  unfoldable pub resume_at : Place → Signal → Handler × Stream
  unfolding run_deferred
  resume_at created signal = first_yield (clone_task lib stored.task) h s stored.task.id
  resume_at at_task signal = unless_stopped signal after_task
  resume_at holding signal = select_hold signal
  resume_at at_message signal = unless_stopped signal after_message
  resume_at at_artifact signal = unless_stopped signal after_artifact
  resume_at at_last signal = unless_stopped signal after_last
  resume_at closing signal = run_deferred h s stored.task.id
  resume_at finished signal = (h, s)

abbrev pub resume_found :
    Library → Handler → Stream → Signal → Option RuntimeTask → Handler × Stream
resume_found lib h s signal none = (h, s)
resume_found lib h s signal (some stored) = resume_at lib h s stored s.place signal

-- One step of the iterator over the task that its pointer names.
unfoldable pub resume : Library → Handler → Stream → Signal → Handler × Stream
unfolding resume_at
resume lib h s signal = resume_found lib h s signal (get_elem? h.objects s.pointer)
