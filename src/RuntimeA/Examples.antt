-- ===== src/RuntimeA/Examples.antt =====
-- Concrete values for the tests: a library whose codec knows one input and one combined result, a
-- framework that delivers the agent's events and a completion, and a Router that answers every call.
use ne_kiro_samples.Base.{
  String, true, false, ◌≡◌, refl, ◌==◌, ◌&&◌, Bool, Bool-cases, if◌then◌else◌, Option, none, some,
  List, [], ◌∷◌, map, ◌⊎◌, ◌++◌, All, Outcome, ok, err, panic, wrapped, router_error, ok_inj, ap,
  ◌≢◌, inl, inr, subst, arith, eq_iff,
}
use ne_kiro_samples.A2a.{
  Value, null, bool, int, str, raw, arr, obj, opaque, Fields, field, end, get_field, data_part,
  user, Message,
}
use ne_kiro_samples.Base.Dict.{lookup}
use ne_kiro_samples.Platform.{
  Library, Claims, NestedResult, Invoker, RequestMeta, Profile, router_auth,
}
use ne_kiro_samples.RuntimeA.Config.{Config}
use ne_kiro_samples.RuntimeA.Nested.{NestedService, input_fields}
use ne_kiro_samples.RuntimeA.Nested.Input.{InputsDecode}
use ne_kiro_samples.RuntimeA.Engine.{Event, Framework, agent_run}
use ne_kiro_samples.RuntimeA.Engine.Reference.{texts}
use ne_kiro_samples.RuntimeA.Handler.{Handler}
use ne_kiro_samples.RuntimeA.Handler.Combined.{child_object, Carries, Reads, ObjectsDecode}
use ne_kiro_samples.RuntimeA.Engine.Delivered.{Faithful, In, Said, EmptyOr, OnlySaid}

abbrev is_str : String → Value → Bool
is_str s (str t) = t == s
is_str s _ = false

abbrev is_raw : String → Value → Bool
is_raw s (raw t) = t == s
is_raw s _ = false

-- The one object that the codec knows.
abbrev known_object : Fields
known_object = child_object "child" "1"

abbrev is_known : Fields → Bool
is_known (field agent a (field child c (field result r end))) =
    agent == "agent"
    && is_str "runtime-a" a
    && (child == "childInvocationId" && is_str "child" c)
    && (result == "childResult" && is_raw "1" r)
is_known _ = false

abbrev encode : Value → Option String
encode (str s) = some s
encode (obj fs) = if is_known fs then some "combined" else none
encode _ = none

abbrev encode_input : List (String × String) → Option String
encode_input ((fixture, success) ∷ (value, encoded) ∷ []) =
    if encoded == "v" then some "input" else none
encode_input _ = none

abbrev pub combined_texts : List (String × String)
combined_texts = ("agent", "runtime-a") ∷ ("childInvocationId", "child") ∷ ("childResult", "1") ∷ []

abbrev decode_fields : String → Option (Option (List (String × String)))
decode_fields s =
    if s == "input"
    then some (some (input_fields "v"))
    else if s == "combined"
    then some (some combined_texts)
    else none

abbrev pub test_library : Library
test_library = record {
  sha256_hex = λ s. s;
  marshal = encode;
  unmarshal = λ s. some (str s);
  marshal_fields = encode_input;
  unmarshal_fields = decode_fields;
  unmarshal_string = λ s. some s;
  unmarshal_raw = λ s. some (some s);
  valid_json = λ s. true;
  validate_context = λ c. none;
}

pub test_library-inputs : InputsDecode test_library
test_library-inputs v encoded input e carried =
    let (is_v, is_input) = known carried in rw (is_v, is_input) (refl, refl, λ empty. cc)
  where
    known : encode_input (input_fields encoded) ≡ some input → (encoded ≡ "v") × (input ≡ "input")
    known carried = ground (arith, eq_iff encoded "v")

is_str-eq : (s : String) (v : Value) → is_str s v ≡ true → v ≡ str s
is_str-eq s (str t) e = ap str ((eq_iff t s).0 e)
is_str-eq s null e = cc
is_str-eq s (bool b) e = cc
is_str-eq s (int n) e = cc
is_str-eq s (raw t) e = cc
is_str-eq s (arr xs) e = cc
is_str-eq s (obj fs) e = cc
is_str-eq s (opaque n) e = cc

is_raw-eq : (s : String) (v : Value) → is_raw s v ≡ true → v ≡ raw s
is_raw-eq s (raw t) e = ap raw ((eq_iff t s).0 e)
is_raw-eq s null e = cc
is_raw-eq s (bool b) e = cc
is_raw-eq s (int n) e = cc
is_raw-eq s (str t) e = cc
is_raw-eq s (arr xs) e = cc
is_raw-eq s (obj fs) e = cc
is_raw-eq s (opaque n) e = cc

is_known-eq : (fs : Fields) → is_known fs ≡ true → fs ≡ known_object
is_known-eq end e = cc
is_known-eq (field x a end) e = cc
is_known-eq (field x a (field y c end)) e = cc
is_known-eq (field x a (field y c (field z r (field w d fs)))) e = cc
is_known-eq (field x a (field y c (field z r end))) e =
    let (nx, va, ny, vc, nz, vr) = parts in
    rw (nx, ny, nz, is_str-eq "runtime-a" a va, is_str-eq "child" c vc, is_raw-eq "1" r vr) refl
  where
    parts :
        (x ≡ "agent")
        × (is_str "runtime-a" a ≡ true)
        × (y ≡ "childInvocationId")
        × (is_str "child" c ≡ true)
        × (z ≡ "childResult")
        × (is_raw "1" r ≡ true)
    parts = ground (arith, eq_iff x "agent", eq_iff y "childInvocationId", eq_iff z "childResult")

carried :
    (name text : String) (v : Value) {w : Value}
    → lookup name combined_texts ≡ some text
    → text ≢ ""
    → Reads test_library v text
    → v ≡ w
    → Carries test_library combined_texts name w
carried name text v there filled reads e =
    subst (Carries test_library combined_texts name) e (text, there, filled, refl, reads)

known-Carries :
    (name : String) (v : Value)
    → get_field name known_object ≡ some v
    → Carries test_library combined_texts name v
unfolding lookup
known-Carries name v e = elim (Bool-cases ("agent" == name)) [
  | inl is_agent ↦
      carried name "runtime-a" (str "runtime-a") (rw is_agent refl) (λ empty. cc) refl
        (ground arith)
  | inr other ↦ elim (Bool-cases ("childInvocationId" == name)) [
    | inl is_child ↦
        carried name "child" (str "child") (rw (other, is_child) refl) (λ empty. cc) refl
          (ground arith)
    | inr other' ↦ elim (Bool-cases ("childResult" == name)) [
      | inl is_result ↦
          carried name "1" (raw "1") (rw (other, other', is_result) refl) (λ empty. cc) refl
            (ground arith)
      | inr none_of ↦ absurd (ground arith)
    ]
  ]
]

encode-eq :
    (fs : Fields) (text : String)
    → encode (obj fs) ≡ some text
    → (is_known fs ≡ true) × (text ≡ "combined")
encode-eq fs text e = ground arith

pub test_library-objects : ObjectsDecode test_library
test_library-objects fs text differ e =
    let (known, is_text) = encode-eq fs text e in
    rw (is_text, is_known-eq fs known) (λ empty. cc, refl, combined_texts, refl, known-Carries)

abbrev pub completed : Event
completed = record { terminal_error = false; error = none; choices = none; completion = true }

abbrev pub delivered : Outcome (List Event) → Outcome (List (Option Event))
delivered (ok events) = ok (map some events ++ some completed ∷ [])
delivered (err e) = err (wrapped "agent: " e)
delivered (panic m) = panic m

abbrev pub test_framework : Framework
test_framework = record {
  run = λ name agent context user_id session text.
      delivered (agent (some context) (some (record { id = "i0"; content = text })));
  response_event = λ id author r. record {
    terminal_error = false;
    error = none;
    choices = some r.contents;
    completion = false;
  };
}

contents-EmptyOr :
    (xs : List String) (sent : List Event)
    → ((c : String) → In c xs → Said c sent)
    → All (EmptyOr sent) xs
contents-EmptyOr [] sent f = tt
contents-EmptyOr (x ∷ xs) sent f =
    (inr (f x (inl refl)), contents-EmptyOr xs sent (λ c i. f c (inr i)))

events-OnlySaid :
    (part sent : List Event)
    → ((c : String) → Said c part → Said c sent)
    → All (OnlySaid (EmptyOr sent)) (map some part ++ some completed ∷ [])
events-OnlySaid [] sent f = (tt, tt)
events-OnlySaid (e ∷ part) sent f = (
  contents-EmptyOr (texts e.choices) sent (λ c i. f c (inl i)),
  events-OnlySaid part sent (λ c s. f c (inr s)),
)

pub test_framework-Faithful : Faithful test_framework
test_framework-Faithful = record {
  delivers = λ name agent context user_id session text events e.
      let (sent, ran, only) =
        go (agent (some context) (some (record { id = "i0"; content = text }))) _ refl e in
      ("i0", sent, ran, only);
  responds = λ id author r. refl;
}
  where
    go :
        (given o : Outcome (List Event)) {events : List (Option Event)}
        → given ≡ o
        → delivered o ≡ ok events
        → (sent : List Event) × ((given ≡ ok sent) ⊎ (sent ≡ []))
          × All (OnlySaid (EmptyOr sent)) events
    go given (ok sent) same e = (
      sent,
      inl same,
      subst (All (OnlySaid (EmptyOr sent))) (ok_inj e) (events-OnlySaid sent sent (λ c s. s)),
    )
    go given (err x) same e = cc
    go given (panic m) same e = cc

abbrev pub test_claims : Claims
test_claims = record {
  workspace_id = "w";
  agent_id = "agent-a";
  agent_version = "1";
  release_id = "r";
  card_digest = "d";
  capability = "runtime.nested";
  invocation_id = "i";
  root_task_id = "t";
  trace_id = "x";
}

abbrev pub echo_claims : Claims
echo_claims = record test_claims { capability = "runtime.echo" }

-- Each header holds its own name.
abbrev pub test_meta : RequestMeta
test_meta name = some (name ∷ [])

abbrev pub test_profile : Profile
test_profile = record {
  trace_id = "trace";
  invocation_id = "invocation";
  root_task_id = "root";
  workspace_id = "workspace";
}

abbrev pub test_message : Message
test_message = record {
  id = "m1";
  context_id = "";
  task_id = "";
  role = user;
  parts =
      data_part (some (field "fixture" (str "success") (field "value" (str "v") end))) none ∷ [];
  extensions = [];
  metadata = none;
  reference_tasks = [];
}

abbrev pub test_config : Config
test_config = record {
  listen_address = "h:1";
  agent_id = "agent-a";
  instance_id = "runtime-a";
  router_url = "u";
  router_token = "k";
  target_agent_id = "agent-b";
  capability = "c";
  response_limit = 1;
  event_limit = 1;
  router_auth = router_auth 0;
}

abbrev pub test_result : NestedResult
test_result = record {
  invocation_id = "child";
  root_task_id = "root";
  trace_id = "trace";
  status = "succeeded";
  result = some "1";
}

abbrev pub test_invoker : Invoker
test_invoker context request = ok (some test_result)

abbrev pub test_service : NestedService
test_service = record { config = test_config; profile = test_profile; invoker = test_invoker }

abbrev pub test_handler : Handler
test_handler = record {
  config = test_config;
  service = test_service;
  engine = record {
    name = "agent-a";
    agent = agent_run test_library test_framework test_config test_service;
  };
}

-- A framework whose runs end with the Router's error.
abbrev pub failing_framework : Framework
failing_framework = record test_framework {
  run = λ name agent context user_id session text.
      err (wrapped "run: " (router_error "no_route" "secret"));
}
