-- ===== src/RuntimeB/Send/Safe.antt =====
-- The errors of Runtime B's message/send, with what each rests on.
use Prim.Native.String.{◌++◌}
use ne_kiro_samples.Base.{
  String, ◌≡◌, ◌≢◌, ◌⊎◌, Option, none, some, [], ◌∷◌, ok, err, Error, plain, invalid_params,
  as_router_error,
}
use ne_kiro_samples.A2a.{Value, str, Message}
use ne_kiro_samples.Platform.{Library, Claims}
use ne_kiro_samples.RuntimeB.Fixture.{
  FixtureKind, stream_success, failure, hold, cancel_observed, interrupted, nested, SendParams,
  parse_fixture,
}
use ne_kiro_samples.RuntimeB.Handler.{Handler}
use ne_kiro_samples.RuntimeB.Nested.{NestedService, invoke}
use ne_kiro_samples.RuntimeB.Send.Lineage.{context_of, request_to}

-- The request is read, as one for this kind of fixture with this value.
abbrev pub Reads : Library → Option SendParams → FixtureKind → Value → Type 0
Reads lib params kind value =
    (message : Message) × (parse_fixture lib params
      ≡ ok (message, record { kind = kind; value = value }))

-- The credential under which a nested request calls the Router.
pub record Calls (lib : Library) (h : Handler) (claims : Option Claims) (params : Option SendParams)
    : Type 0 where
  pub value : Value
  pub read : Reads lib params nested value
  pub service : NestedService
  pub configured : h.nested ≡ some service
  pub credential : Claims
  pub given : claims ≡ some credential
  pub own : credential.agent_id ≡ service.config.agent_id

-- The Router has refused the call that the request makes, with this error.
pub record RouterFailed (lib : Library) (h : Handler) (claims : Option Claims)
    (params : Option SendParams) (failed : Error) : Type 0 where
  pub call : Calls lib h claims params
  pub encoded : String
  pub marshalled : lib.marshal call.value ≡ some encoded
  pub input : String
  pub carried :
      lib.marshal_fields (("fixture", "\"success\"") ∷ ("value", encoded) ∷ []) ≡ some input
  pub refused :
      call.service.invoker (context_of call.credential) (request_to call.service input) ≡ err failed

-- The errors of message/send, each with what the request says or the Router has returned.
pub data IsSafeError (lib : Library) (h : Handler) (claims : Option Claims)
    (params : Option SendParams) : Error → Type 0 where
  unread :
      (text : String)
      → parse_fixture lib params ≡ err (invalid_params text)
      → IsSafeError lib h claims params (invalid_params text)
  failing :
      (value : Value)
      → Reads lib params failure value
      → IsSafeError lib h claims params (plain "runtime-b deterministic fixture failure")
  for_streams :
      (value : Value)
      → Reads lib params stream_success value ⊎ Reads lib params hold value
      → IsSafeError lib h claims params (invalid_params "fixture requires message/stream")
  unsupported :
      (value : Value)
      → Reads lib params interrupted value
      → IsSafeError lib h claims params (invalid_params "fixture is not supported")
  unmarked :
      (value : Value)
      → Reads lib params cancel_observed value
      → ((marker : String) → value ≡ str marker → marker ≡ "")
      → IsSafeError lib h claims params
          (invalid_params "cancel observation marker must be a non-empty string")
  unconfigured :
      (value : Value)
      → Reads lib params nested value
      → h.nested ≡ none
      → IsSafeError lib h claims params (invalid_params "nested fixture is not configured")
  no_credential :
      (value : Value)
      → Reads lib params nested value
      → claims ≡ none
      → IsSafeError lib h claims params
          (invalid_params "managed Router credential context is required")
  foreign_credential :
      (value : Value) (service : NestedService) (credential : Claims)
      → Reads lib params nested value
      → h.nested ≡ some service
      → claims ≡ some credential
      → credential.agent_id ≢ service.config.agent_id
      → IsSafeError lib h claims params
          (invalid_params "managed Router credential Agent identity is invalid")
  invalid_context :
      (c : Calls lib h claims params) (text : String)
      → lib.validate_context (context_of c.credential) ≡ some text
      → IsSafeError lib h claims params (invalid_params text)
  router_failure :
      (code : String) (failed : Error)
      → RouterFailed lib h claims params failed
      → as_router_error failed ≡ some code
      → IsSafeError lib h claims params (plain ("runtime-b nested Router failure: " ++ code))
  unknown_failure :
      (c : Calls lib h claims params) (failed : Error)
      → invoke lib c.service (context_of c.credential) c.value ≡ err failed
      → as_router_error failed ≡ none
      → IsSafeError lib h claims params
          (plain "runtime-b nested invocation failure (unknown category)")
