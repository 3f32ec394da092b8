-- ===== src/RuntimeB/Clone.antt =====
-- runtime-b/handler.go: deep copies of A2A values. A value that JSON cannot carry, and a part of
-- an unknown type, end in a panic.
pub mod Laws
pub mod Copies
pub mod Errors
use ne_kiro_samples.Base.{
  String, Option, none, some, List, [], ◌∷◌, Outcome, ok, err, panic, ◌>>=◌, ◌>>◌,
}
use ne_kiro_samples.A2a.{
  Value, null, bool, int, str, raw, arr, obj, opaque, JsonMap, FileContent, file_bytes, file_uri,
  other_content, Part, data_part, text_part, file_part, other_part, Message, TaskStatus, Artifact,
  Task,
}
use ne_kiro_samples.Platform.{Library}
use ne_kiro_samples.RuntimeB.Fixture.{clone_json_value}

-- cloned.(map[string]any)
abbrev pub as_map : Value → Outcome JsonMap
as_map (obj fs) = ok (some fs)
as_map _ = panic "cloned a2a map has another type"

abbrev pub or_panic {ℓ} : {A : Type ℓ} → Option A → String → Outcome A
or_panic none m = panic m
or_panic (some a) m = ok a

-- One round after another of a loop that fills a slice.
abbrev pub clone_each {ℓ} : {A : Type ℓ} → (A → Outcome A) → List A → Outcome (List A)
clone_each f [] = ok []
clone_each f (x ∷ xs) = do y ← f x; ys ← clone_each f xs; ok (y ∷ ys)

abbrev pub clone_option {ℓ} : {A : Type ℓ} → (A → Outcome A) → Option A → Outcome (Option A)
clone_option f none = ok none
clone_option f (some a) = do b ← f a; ok (some b)

module _ (lib : Library) where
  unfoldable pub clone_json_map : JsonMap → Outcome JsonMap
  clone_json_map none = ok none
  clone_json_map (some fs) = do
    cloned ← or_panic (clone_json_value lib (obj fs)) "non-json a2a map value"
    as_map cloned

  unfoldable pub clone_file_part_content : FileContent → Outcome FileContent
  clone_file_part_content (file_bytes b) = ok (file_bytes b)
  clone_file_part_content (file_uri u) = ok (file_uri u)
  clone_file_part_content (other_content n) = panic "unsupported a2a file part content type"

  unfoldable pub clone_part : Part → Outcome Part
  unfolding clone_json_map clone_file_part_content
  clone_part (data_part content metadata) = do
    content' ← clone_json_map content
    metadata' ← clone_json_map metadata
    ok (data_part content' metadata')
  clone_part (text_part text metadata) = do
    metadata' ← clone_json_map metadata
    ok (text_part text metadata')
  clone_part (file_part content metadata) = do
    metadata' ← clone_json_map metadata
    content' ← clone_file_part_content content
    ok (file_part content' metadata')
  clone_part (other_part n) = panic "unsupported a2a part type"

  unfoldable pub clone_parts : List Part → Outcome (List Part)
  unfolding clone_part
  clone_parts parts = clone_each clone_part parts

  unfoldable pub clone_message : Message → Outcome Message
  unfolding clone_json_map clone_parts
  clone_message message = do
    metadata ← clone_json_map message.metadata
    parts ← clone_parts message.parts
    ok (record message { metadata = metadata; parts = parts })

  unfoldable pub clone_task_status : TaskStatus → Outcome TaskStatus
  unfolding clone_message
  clone_task_status status = do
    message ← clone_option clone_message status.message
    ok (record status { message = message })

  unfoldable pub clone_artifact : Artifact → Outcome Artifact
  unfolding clone_json_map clone_parts
  clone_artifact artifact = do
    metadata ← clone_json_map artifact.metadata
    parts ← clone_parts artifact.parts
    ok (record artifact { metadata = metadata; parts = parts })

  unfoldable pub clone_task : Task → Outcome Task
  unfolding clone_json_map clone_task_status clone_message clone_artifact
  clone_task task = do
    metadata ← clone_json_map task.metadata
    status ← clone_task_status task.status
    history ← clone_each clone_message task.history
    artifacts ← clone_option (clone_each clone_artifact) task.artifacts
    ok (record task {
      metadata = metadata;
      status = status;
      history = history;
      artifacts = artifacts;
    })
