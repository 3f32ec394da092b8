-- ===== src/Platform.antt =====
-- What the samples take from code outside the repository: the Router's credential claims and the
-- call data of the NeKiro SDK as records of the fields that the samples use, and the functions
-- that the samples call as one record `Library`, a parameter of the model.
use ne_kiro_samples.Base.{String, Bool, Option, List, ℕ, Outcome}
use ne_kiro_samples.A2a.{Value}

-- contracts.RouterInvocationCredentialClaimsV1
pub record Claims : Type 0 where
  pub workspace_id : String
  pub agent_id : String
  pub agent_version : String
  pub release_id : String
  pub card_digest : String
  pub capability : String
  pub invocation_id : String
  pub root_task_id : String
  pub trace_id : String

-- agentsdk.PlatformContext
pub record PlatformContext : Type 0 where
  pub invocation_id : String
  pub root_task_id : String
  pub trace_id : String
  pub workspace_id : String
  pub agent_id : String

-- agentsdk.NestedRequest; `stream` is a switch that the samples leave off.
pub record NestedRequest : Type 0 where
  pub target_agent_id : String
  pub capability : String
  pub input : String
  pub stream : Bool

-- agentsdk.NestedResult; `result` is a json.RawMessage, which may be nil.
pub record NestedResult : Type 0 where
  pub invocation_id : String
  pub root_task_id : String
  pub trace_id : String
  pub status : String
  pub result : Option String

-- The functions of other packages. `none` of a codec function is its error; a JSON object decoded
-- into a map of raw messages may be the nil map, and one into a raw message a nil one. `sha256_hex` is the digest of a text's bytes in
-- hexadecimal; `validate_context` is PlatformContext.Validate, with the text of its error.
pub record Library : Type 0 where
  pub sha256_hex : String → String
  pub marshal : Value → Option String
  pub unmarshal : String → Option Value
  pub marshal_fields : List (String × String) → Option String
  pub unmarshal_fields : String → Option (Option (List (String × String)))
  pub unmarshal_string : String → Option String
  pub unmarshal_raw : String → Option (Option String)
  pub valid_json : String → Bool
  pub validate_context : PlatformContext → Option String

-- A nested call through the Router: its error, or a result that may be a nil pointer. The call
-- itself is the SDK's.
abbrev pub Invoker : Type 0
Invoker = PlatformContext → NestedRequest → Outcome (Option NestedResult)

-- a2asrv.RequestMeta: the values of a header, and whether there are any.
abbrev pub RequestMeta : Type 0
RequestMeta = String → Option (List String)

-- contracts.A2AProfile, with the names of its context headers.
pub record Profile : Type 0 where
  pub trace_id : String
  pub invocation_id : String
  pub root_task_id : String
  pub workspace_id : String

-- routerauth.Config: the samples pass it on and read nothing of it.
pub data RouterAuth : Type 0 where
  router_auth : ℕ → RouterAuth
