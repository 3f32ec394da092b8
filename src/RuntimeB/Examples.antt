-- ===== src/RuntimeB/Examples.antt =====
-- Concrete values for the tests: a library whose codec knows texts and one object, two requests,
-- and the state of a server.
use ne_kiro_samples.Base.{
  refl, String, Option, none, some, [], ◌∷◌, ◌==◌, if◌then◌else◌, true, arith, eq_iff,
}
use ne_kiro_samples.A2a.{
  Value, null, bool, int, str, raw, arr, obj, opaque, Fields, field, end, data_part, user, Message,
}
use ne_kiro_samples.Base.{ok, err, router_error, wrapped}
use ne_kiro_samples.Base.Dict.{lookup}
use ne_kiro_samples.Platform.{Library, Claims, router_auth}
use ne_kiro_samples.RuntimeB.Config.{Config}
use ne_kiro_samples.RuntimeB.Fixture.{
  SendParams, clone_json_value, FixtureRequest, hold, stream_success,
}
use ne_kiro_samples.RuntimeB.Clone.{clone_message}
use ne_kiro_samples.RuntimeB.Nested.{NestedService}
use ne_kiro_samples.RuntimeB.Handler.{Handler, RuntimeTask, working_task, new_handler}
use ne_kiro_samples.RuntimeB.Handler.Created.{with_task}
use ne_kiro_samples.RuntimeB.Handler.Sound.{IsSound, IsSoundTask, append-IsSound}
use ne_kiro_samples.RuntimeB.Clone.Laws.{CopiesAreStable}

abbrev pub hold_fields : Fields
hold_fields = field "fixture" (str "hold") (field "value" (str "marker") end)

abbrev encode : Value → Option String
encode (str s) = some s
encode (obj fs) = some "{}"
encode null = none
encode (bool b) = none
encode (int n) = none
encode (raw s) = none
encode (arr xs) = none
encode (opaque n) = none

abbrev decode : String → Option Value
decode s = if s == "{}" then some (obj hold_fields) else some (str s)

-- Texts are written as they are, and "{}" stands for the one object that the tests send.
abbrev pub test_library : Library
test_library = record {
  sha256_hex = λ s. s;
  marshal = encode;
  unmarshal = decode;
  marshal_fields = λ fs. some "{}";
  unmarshal_fields = λ s. none;
  unmarshal_string = λ s. some s;
  unmarshal_raw = λ s. some (some s);
  valid_json = λ s. true;
  validate_context = λ c. none;
}

pub test_library-stable : CopiesAreStable test_library
unfolding clone_json_value
test_library-stable (str s) w e = ground (arith, eq_iff s "{}")
test_library-stable (obj fs) w e = ground arith
test_library-stable null w e = cc
test_library-stable (bool b) w e = cc
test_library-stable (int n) w e = cc
test_library-stable (raw s) w e = cc
test_library-stable (arr xs) w e = cc
test_library-stable (opaque n) w e = cc

abbrev pub message_with : String → Fields → Message
message_with id content = record {
  id = id;
  context_id = "";
  task_id = "";
  role = user;
  parts = data_part (some content) none ∷ [];
  extensions = [];
  metadata = none;
  reference_tasks = [];
}

abbrev pub params_with : String → Fields → Option SendParams
params_with id content = some (record { message = some (message_with id content) })

abbrev pub test_claims : Claims
test_claims = record {
  workspace_id = "w";
  agent_id = "agent-b";
  agent_version = "1";
  release_id = "r";
  card_digest = "d";
  capability = "c";
  invocation_id = "i";
  root_task_id = "t";
  trace_id = "x";
}

abbrev pub hold_message : Message
hold_message = message_with "m1" hold_fields

abbrev pub hold_request : FixtureRequest
hold_request = record { kind = hold; value = str "marker" }

abbrev pub stream_request : FixtureRequest
stream_request = record { kind = stream_success; value = str "v" }

-- The task that a request of `test_claims` creates.
abbrev pub task_of : FixtureRequest → RuntimeTask
task_of request = working_task test_library (some test_claims) hold_message hold_message request

-- A server that holds one task.
abbrev pub server_with : FixtureRequest → Handler
server_with request = with_task new_handler (task_of request)

abbrev pub test_service : Config → NestedService
test_service config = record {
  config = config;
  invoker = λ context request.
      if request.input == ""
      then err (router_error "no_input" "t")
      else ok (
          some (record {
            invocation_id = "child";
            root_task_id = "t";
            trace_id = "x";
            status = "succeeded";
            result = some "1";
          }));
}

abbrev pub test_config : Config
test_config = record {
  agent_id = "agent-b";
  instance_id = "runtime-b";
  router_url = "u";
  router_token = "k";
  target_agent_id = "agent-c";
  capability = "c";
  response_limit = 1;
  event_limit = 1;
  router_auth = router_auth 0;
}

-- A Router that fails, with its code.
abbrev pub failing_service : NestedService
failing_service = record {
  config = test_config;
  invoker = λ context request. err (wrapped "call" (router_error "no_route" "secret"));
}

pub new_handler-IsSound : IsSound test_library new_handler
unfolding lookup
new_handler-IsSound = record { sound_tasks = tt; named = λ id. tt }

pub task_of-IsSoundTask : (request : FixtureRequest) → IsSoundTask test_library (task_of request)
unfolding working_task clone_message clone_json_value
task_of-IsSoundTask request = record {
  phase = refl;
  no_status_message = refl;
  no_timestamp = refl;
  no_metadata = refl;
  no_artifacts = refl;
  history_copies = refl;
}

pub server_with-IsSound : (request : FixtureRequest) → IsSound test_library (server_with request)
server_with-IsSound request =
    append-IsSound test_library new_handler (task_of request) new_handler-IsSound
      (task_of-IsSoundTask request)
