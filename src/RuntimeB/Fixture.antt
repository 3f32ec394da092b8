-- ===== src/RuntimeB/Fixture.antt =====
-- runtime-b/fixture.go: which requests the deterministic sample accepts, and JSON copies.
pub mod Refusals
pub mod Accepts
use ne_kiro_samples.Base.{
  String, Bool, Option, none, some, List, [], ◌∷◌, ◌==◌, if◌then◌else◌, Outcome, ok, err,
  invalid_params, guard, or_fail, ◌>>=◌, ◌>>◌, nat_eq, not, true, false,
}
use ne_kiro_samples.A2a.{
  Value, str, Fields, field_count, get_field, entries, Part, data_part, Role, user, Message,
}
use ne_kiro_samples.Platform.{Library}

pub data FixtureKind : Type 0 where
  success stream_success failure protocol hold cancel_observed interrupted nested : FixtureKind

-- string(kind)
abbrev pub kind_text : FixtureKind → String
kind_text success = "success"
kind_text stream_success = "stream-success"
kind_text failure = "failure"
kind_text protocol = "protocol"
kind_text hold = "hold"
kind_text cancel_observed = "cancel-observed"
kind_text interrupted = "interrupted"
kind_text nested = "nested"

-- The switch over fixtureKind(fixture): a text outside the list is not supported.
unfoldable pub kind_of_text : String → Option FixtureKind
kind_of_text s =
    if s == "success"
    then some success
    else if s == "stream-success"
    then some stream_success
    else if s == "failure"
    then some failure
    else if s == "protocol"
    then some protocol
    else if s == "hold"
    then some hold
    else if s == "cancel-observed"
    then some cancel_observed
    else if s == "interrupted"
    then some interrupted
    else if s == "nested"
    then some nested
    else none

pub record FixtureRequest : Type 0 where
  pub kind : FixtureKind
  pub value : Value

-- a2a.MessageSendParams; a nil pointer is `none`.
pub record SendParams : Type 0 where
  pub message : Option Message

abbrev pub message_of : Option SendParams → Option Message
message_of none = none
message_of (some p) = p.message

-- json.Marshal, then json.Unmarshal into an `any`. Its errors are read by no caller but for being
-- errors.
unfoldable pub clone_json_value : Library → Value → Option Value
clone_json_value lib value = elim (lib.marshal value) [
  | none ↦ none
  | some encoded ↦ lib.unmarshal encoded
]

abbrev pub is_user : Role → Bool
is_user user = true
is_user _ = false

-- len(parts) != 1
abbrev pub one_part : List Part → Outcome Part
one_part (part ∷ []) = ok part
one_part _ = err (invalid_params "exactly one data part is required")

abbrev pub data_of : Part → Outcome Fields
data_of (data_part content metadata) = ok (entries content)
data_of _ = err (invalid_params "the request part must be structured data")

-- rawFixture.(string) and the test for the empty text.
abbrev pub fixture_text : Value → Outcome String
fixture_text (str s) =
    if s == "" then err (invalid_params "fixture must be a non-empty string") else ok s
fixture_text _ = err (invalid_params "fixture must be a non-empty string")

unfoldable pub parse_data : Library → Fields → Outcome FixtureRequest
unfolding kind_of_text clone_json_value
parse_data lib content = do
  guard (nat_eq (field_count content) 2)
      (invalid_params "the data part must contain only fixture and value")
  raw_fixture ← or_fail (get_field "fixture" content) (invalid_params "fixture is required")
  fixture ← fixture_text raw_fixture
  value ← or_fail (get_field "value" content) (invalid_params "value is required")
  kind ← or_fail (kind_of_text fixture) (invalid_params "fixture is not supported")
  cloned ← or_fail (clone_json_value lib value) (invalid_params "value must be JSON-compatible")
  ok (record { kind = kind; value = cloned })

unfoldable pub parse_fixture : Library → Option SendParams → Outcome (Message × FixtureRequest)
unfolding parse_data
parse_fixture lib params = do
  message ← or_fail (message_of params) (invalid_params "message is required")
  guard (not (message.id == "")) (invalid_params "messageId is required")
  guard (is_user message.role) (invalid_params "message role must be user")
  part ← one_part message.parts
  content ← data_of part
  request ← parse_data lib content
  ok (message, request)
