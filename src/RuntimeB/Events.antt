-- ===== src/RuntimeB/Events.antt =====
-- runtime-b/handler.go: the events of message/stream.
use ne_kiro_samples.Base.{ℕ, String, Bool, none, some, [], ◌∷◌, Error}
use ne_kiro_samples.A2a.{
  str, int, field, end, data_part, agent, Message, Task, TaskState, StatusUpdate, ArtifactUpdate,
}
use ne_kiro_samples.Platform.{Library}
use ne_kiro_samples.RuntimeB.Identity.{derived_id}
use ne_kiro_samples.RuntimeB.Fixture.{kind_text, FixtureRequest}
use ne_kiro_samples.RuntimeB.Handler.{Handler, status_of}

-- What the iterator yields: an event, or an error; `panicked` is the panic that ended it.
pub data StreamEvent : Type 0 where
  task_event : Task → StreamEvent
  message_event : Message → StreamEvent
  artifact_event : ArtifactUpdate → StreamEvent
  status_event : StatusUpdate → StreamEvent
  error_event : Error → StreamEvent
  panicked : String → StreamEvent

unfoldable pub stream_message : Library → Handler → Task → FixtureRequest → Message
stream_message lib h task request = record {
  id = derived_id lib "stream-message" task.id;
  context_id = task.context_id;
  task_id = task.id;
  role = agent;
  parts =
      data_part
        (some (
          field "agent" (str "runtime-b") (
            field "instanceId" (str h.instance_id) (
              field "fixture" (str (kind_text request.kind))
                (field "phase" (str "working") (field "value" request.value end))))))
        none
      ∷ [];
  extensions = [];
  metadata = none;
  reference_tasks = [];
}

unfoldable pub artifact_update :
    Handler → Task → String → FixtureRequest → (appends last : Bool) → ℕ → ArtifactUpdate
artifact_update h task artifact_id request appends last sequence = record {
  task_id = task.id;
  context_id = task.context_id;
  appends = appends;
  last_chunk = last;
  artifact = record {
    id = artifact_id;
    name = "runtime-b-result";
    parts =
        data_part
          (some (
            field "agent" (str "runtime-b") (
              field "instanceId" (str h.instance_id) (
                field "fixture" (str (kind_text request.kind))
                  (field "sequence" (int sequence) (field "value" request.value end))))))
          none
        ∷ [];
    extensions = [];
    metadata = none;
  };
}

unfoldable pub status_update : Task → TaskState → Bool → StatusUpdate
status_update task state final = record {
  task_id = task.id;
  context_id = task.context_id;
  status = status_of state;
  final = final;
}
