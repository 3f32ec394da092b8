-- ===== src/RuntimeB/Stream/Opening.antt =====
-- How message/stream of runtime-b/handler.go begins.
use ne_kiro_samples.Base.{
  ℕ, String, true, false, ◌≡◌, ◌≢◌, arith, plain, Error, some, refl, ◌⊎◌, inl, inr, Option, none,
  [], length, Outcome, ok, err, panic, Option-cases, Bool-cases, invalid_params,
}
use ne_kiro_samples.Base.Dict.{lookup}
use ne_kiro_samples.A2a.{Message}
use ne_kiro_samples.Platform.{Library, Claims}
use ne_kiro_samples.RuntimeB.Identity.{derived_id}
use ne_kiro_samples.RuntimeB.Fixture.{
  FixtureKind, failure, FixtureRequest, SendParams, parse_fixture,
}
use ne_kiro_samples.RuntimeB.Clone.{clone_message}
use ne_kiro_samples.RuntimeB.Handler.{
  Handler, create_working_task, store_task, working_task, store_copied,
}
use ne_kiro_samples.RuntimeB.Handler.Created.{with_task}
use ne_kiro_samples.RuntimeB.Stream.{
  Stream, StreamEvent, created, is_streamed, error_event, panicked, is_failure, open_stream,
  open_from, open_parsed, start,
}

abbrev pub opening : Handler → Message → FixtureRequest → Stream
opening h message request = record {
  pointer = length h.objects;
  message = message;
  request = request;
  place = created;
  terminal = false;
  events = [];
}

-- What the request says decides the case; a refusal leaves the handler as it was.
pub data OpenCase (lib : Library) (h : Handler) (claims : Option Claims)
    (params : Option SendParams) (r : Handler × (Stream ⊎ StreamEvent)) : Type 0 where
  unread :
      (e : Error)
      → parse_fixture lib params ≡ err e
      → r ≡ (h, inr (error_event e))
      → OpenCase lib h claims params r
  broken :
      (text : String)
      → parse_fixture lib params ≡ panic text
      → r ≡ (h, inr (panicked text))
      → OpenCase lib h claims params r
  failing :
      (message : Message) (request : FixtureRequest)
      → parse_fixture lib params ≡ ok (message, request)
      → request.kind ≡ failure
      → r ≡ (h, inr (error_event (plain "runtime-b deterministic fixture failure")))
      → OpenCase lib h claims params r
  unstreamed :
      (message : Message) (request : FixtureRequest)
      → parse_fixture lib params ≡ ok (message, request)
      → request.kind ≢ failure
      → is_streamed request.kind ≡ false
      → r ≡ (h, inr (error_event (invalid_params "fixture requires message/send")))
      → OpenCase lib h claims params r
  uncopied :
      (message : Message) (request : FixtureRequest) (e : StreamEvent)
      → parse_fixture lib params ≡ ok (message, request)
      → ((cloned : Message) → clone_message lib message ≢ ok cloned)
      → r ≡ (h, inr e)
      → OpenCase lib h claims params r
  used :
      (message cloned : Message) (request : FixtureRequest) (p : ℕ)
      → parse_fixture lib params ≡ ok (message, request)
      → clone_message lib message ≡ ok cloned
      → lookup (derived_id lib "task" message.id) h.tasks ≡ some p
      → r ≡ (h, inr (error_event (invalid_params "messageId already identifies a runtime task")))
      → OpenCase lib h claims params r
  opened :
      (message cloned : Message) (request : FixtureRequest)
      → parse_fixture lib params ≡ ok (message, request)
      → is_streamed request.kind ≡ true
      → clone_message lib message ≡ ok cloned
      → lookup (derived_id lib "task" message.id) h.tasks ≡ none
      → r ≡ (
        with_task h (working_task lib claims message cloned request),
        inl (opening h message request),
      )
      → OpenCase lib h claims params r

module _ (lib : Library) (h : Handler) (claims : Option Claims) (params : Option SendParams)
    (message : Message) (request : FixtureRequest)
    (parsed : parse_fixture lib params ≡ ok (message, request)) where
  start-OpenCase :
      is_streamed request.kind ≡ true
      → (copied : Outcome Message) → clone_message lib message ≡ copied
      → OpenCase lib h claims params
          (start message request (store_copied lib h claims message request copied))
  unfolding store_task working_task
  start-OpenCase streamed (err e) copy =
      uncopied message request (error_event e) parsed (λ cloned made. cc) refl
  start-OpenCase streamed (panic m) copy =
      uncopied message request (panicked m) parsed (λ cloned made. cc) refl
  start-OpenCase streamed (ok cloned) copy =
      elim (Option-cases (lookup (derived_id lib "task" message.id) h.tasks)) [
        | inl free ↦
            opened message cloned request parsed streamed copy free (rw (free, store_task) refl)
        | inr (p, taken) ↦
            used message cloned request p parsed copy taken (rw (taken, store_task) refl)
      ]

  is_failure-eq : (kind : FixtureKind) → is_failure kind ≡ true → kind ≡ failure
  is_failure-eq kind e = ground arith

  is_failure-ne : (kind : FixtureKind) → is_failure kind ≡ false → kind ≢ failure
  is_failure-ne kind e q = ground arith

  open_parsed-OpenCase : OpenCase lib h claims params (open_parsed lib h claims message request)
  unfolding create_working_task
  open_parsed-OpenCase = elim (Bool-cases (is_failure request.kind)) [
    | inl fails ↦ failing message request parsed (is_failure-eq request.kind fails) (rw fails refl)
    | inr more ↦ elim (Bool-cases (is_streamed request.kind)) [
      | inr other ↦
          unstreamed message request parsed (is_failure-ne request.kind more) other
            (rw (more, other) refl)
      | inl streamed ↦
          rw (more, streamed) (start-OpenCase streamed (clone_message lib message) refl)
    ]
  ]

open_from-OpenCase :
    (lib : Library) (h : Handler) (claims : Option Claims) (params : Option SendParams)
    (parsed : Outcome (Message × FixtureRequest))
    → parse_fixture lib params ≡ parsed
    → OpenCase lib h claims params (open_from lib h claims parsed)
open_from-OpenCase lib h claims params (ok (message, request)) e =
    open_parsed-OpenCase lib h claims params message request e
open_from-OpenCase lib h claims params (err x) e = unread x e refl
open_from-OpenCase lib h claims params (panic m) e = broken m e refl

-- message/stream does what its parsed request says: an unreadable request, the failure fixture, a fixture
-- without a stream, a message that cannot be copied and one whose id has a task are each refused with
-- one event, and the handler stays as it was; any other adds a working task with a copy of the message
-- under its id, and begins a stream of this message and request.
pub open_stream-OpenCase :
    (lib : Library) (h : Handler) (claims : Option Claims) (params : Option SendParams)
    → OpenCase lib h claims params (open_stream lib h claims params)
unfolding open_stream
open_stream-OpenCase lib h claims params =
    open_from-OpenCase lib h claims params (parse_fixture lib params) refl
