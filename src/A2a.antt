-- ===== src/A2a.antt =====
-- The shapes of the third-party values that the samples handle, with the fields and constructors
-- that the samples read or write: JSON-like Go values (`any`), and the A2A messages, tasks and
-- events of a2a-go. `nil` maps and pointers are `none`. Proofs and operations stand elsewhere.
use ne_kiro_samples.Base.{ℕ, String, Bool, Option, none, some, List, ◌==◌, if◌then◌else◌, suc}

-- A Go value of type `any`. `raw` is a json.RawMessage, `opaque` any value that is none of these.
mutual
  pub data Value : Type 0 where
    null : Value
    bool : Bool → Value
    int : ℕ → Value
    str : String → Value
    raw : String → Value
    arr : Items → Value
    obj : Fields → Value
    opaque : ℕ → Value

  pub data Items : Type 0 where
    nil : Items
    cons : Value → Items → Items

  pub data Fields : Type 0 where
    end : Fields
    field : String → Value → Fields → Fields

-- len(m) of a map[string]any.
abbrev pub field_count : Fields → ℕ
field_count end = 0
field_count (field k v fs) = suc (field_count fs)

-- m[k], with its `exists` result.
abbrev pub get_field : String → Fields → Option Value
get_field k end = none
get_field k (field j v fs) = if j == k then some v else get_field k fs

-- A map[string]any, which may be nil; reading a nil map finds nothing.
abbrev pub JsonMap : Type 0
JsonMap = Option Fields

abbrev pub entries : JsonMap → Fields
entries none = end
entries (some fs) = fs

pub data FileContent : Type 0 where
  file_bytes file_uri : String → FileContent
  other_content : ℕ → FileContent

pub data Part : Type 0 where
  data_part : (content metadata : JsonMap) → Part
  text_part : (text : String) (metadata : JsonMap) → Part
  file_part : FileContent → (metadata : JsonMap) → Part
  other_part : ℕ → Part

pub data Role : Type 0 where
  user agent : Role
  other_role : String → Role

pub record Message : Type 0 where
  pub id : String
  pub context_id : String
  pub task_id : String
  pub role : Role
  pub parts : List Part
  pub extensions : List String
  pub metadata : JsonMap
  pub reference_tasks : List String

pub data TaskState : Type 0 where
  working completed canceled : TaskState
  other_state : String → TaskState

-- The timestamp is a time on the clock's scale.
pub record TaskStatus : Type 0 where
  pub state : TaskState
  pub message : Option Message
  pub timestamp : Option ℕ

pub record Artifact : Type 0 where
  pub id : String
  pub name : String
  pub parts : List Part
  pub extensions : List String
  pub metadata : JsonMap

pub record Task : Type 0 where
  pub id : String
  pub context_id : String
  pub status : TaskStatus
  pub history : List Message
  pub artifacts : Option (List Artifact)
  pub metadata : JsonMap

pub record StatusUpdate : Type 0 where
  pub task_id : String
  pub context_id : String
  pub status : TaskStatus
  pub final : Bool

pub record ArtifactUpdate : Type 0 where
  pub task_id : String
  pub context_id : String
  pub appends : Bool
  pub last_chunk : Bool
  pub artifact : Artifact

-- A result of message/send: a message or a task.
pub data SendResult : Type 0 where
  sent_message : Message → SendResult
  sent_task : Task → SendResult
