-- ===== src/RuntimeB/Fixture/Accepts.antt =====
-- Which requests parse_fixture accepts, and with what result.
use ne_kiro_samples.Base.{
  String, true, not, ◌≡◌, refl, ◌∙◌, ap, subst, ◌≢◌, ◌↔◌, Option, some, List, [], ◌∷◌, ◌==◌, nat_eq,
  arith, eq_iff, nat_eq_iff, text_ne, Outcome, ok, bind_then, guard_then, or_fail_then,
}
use ne_kiro_samples.A2a.{
  Value, str, Fields, field_count, get_field, JsonMap, entries, Part, data_part, text_part,
  file_part, other_part, Role, user, Message,
}
use ne_kiro_samples.Platform.{Library}
use ne_kiro_samples.RuntimeB.Fixture.{
  FixtureKind, success, kind_text, kind_of_text, FixtureRequest, SendParams, message_of,
  clone_json_value, is_user, one_part, data_of, fixture_text, parse_data, parse_fixture,
}

kind_of_text_sound : (s : String) (k : FixtureKind) → kind_of_text s ≡ some k → s ≡ kind_text k
unfolding kind_of_text
kind_of_text_sound s k e = ground (
  arith,
  eq_iff s "success",
  eq_iff s "stream-success",
  eq_iff s "failure",
  eq_iff s "protocol",
  eq_iff s "hold",
  eq_iff s "cancel-observed",
  eq_iff s "interrupted",
  eq_iff s "nested",
)

kind_of_text-kind_text : (k : FixtureKind) → kind_of_text (kind_text k) ≡ some k
unfolding kind_of_text
kind_of_text-kind_text success = refl
kind_of_text-kind_text _ = refl

-- A request that the sample accepts: a user's message with an id and one data part, of two fields,
-- a known fixture and a value that JSON carries over to the request's value.
pub record Accepts (lib : Library) (params : Option SendParams) (m : Message) (r : FixtureRequest)
    : Type 0 where
  pub present : message_of params ≡ some m
  pub named : m.id ≢ ""
  pub from_user : m.role ≡ user
  pub content : JsonMap
  pub metadata : JsonMap
  pub one : m.parts ≡ data_part content metadata ∷ []
  pub two : field_count (entries content) ≡ 2
  pub fixture : get_field "fixture" (entries content) ≡ some (str (kind_text r.kind))
  pub given : Value
  pub value : get_field "value" (entries content) ≡ some given
  pub carried : clone_json_value lib given ≡ some r.value

one_part-eq-ok : (ps : List Part) {p : Part} → one_part ps ≡ ok p → ps ≡ p ∷ []
one_part-eq-ok ps e = ground arith

data_of-eq-ok :
    (p : Part) {fs : Fields}
    → data_of p ≡ ok fs
    → (content : JsonMap) × (metadata : JsonMap) × (p ≡ data_part content metadata)
      × (entries content ≡ fs)
data_of-eq-ok (data_part c m) e = (c, m, refl, cc)
data_of-eq-ok (text_part t m) e = cc
data_of-eq-ok (file_part c m) e = cc
data_of-eq-ok (other_part n) e = cc

fixture_text-eq-ok : (v : Value) {s : String} → fixture_text v ≡ ok s → v ≡ str s
fixture_text-eq-ok v e = ground arith

kind_text-given : (k : FixtureKind) → fixture_text (str (kind_text k)) ≡ ok (kind_text k)
kind_text-given success = refl
kind_text-given _ = refl

not-empty : (s : String) → not (s == "") ≡ true → s ≢ ""
not-empty s e q = ground (arith, eq_iff s "")

is_user-eq : (r : Role) → is_user r ≡ true → r ≡ user
is_user-eq r e = ground arith

same_request :
    (kind : FixtureKind) (cloned : Value) (r : FixtureRequest)
    → ◌≡◌ {A = Outcome FixtureRequest} (ok (record { kind = kind; value = cloned })) (ok r)
    → (kind ≡ r.kind) × (cloned ≡ r.value)
same_request kind cloned r e = ground arith

same_pair :
    (m m' : Message) (r r' : FixtureRequest)
    → ◌≡◌ {A = Outcome (Message × FixtureRequest)} (ok (m', r')) (ok (m, r))
    → (m' ≡ m) × (r' ≡ r)
same_pair m m' r r' e = ground arith

parse_data_sound :
    (lib : Library) (fs : Fields) (r : FixtureRequest)
    → parse_data lib fs ≡ ok r
    → (given : Value) × (field_count fs ≡ 2)
      × (get_field "fixture" fs ≡ some (str (kind_text r.kind)))
      × (get_field "value" fs ≡ some given)
      × (clone_json_value lib given ≡ some r.value)
unfolding parse_data
parse_data_sound lib fs r e = guard_then (nat_eq (field_count fs) 2) _ _ e λ two e.
    or_fail_then (get_field "fixture" fs) _ _ e λ raw_fixture found e.
      bind_then (fixture_text raw_fixture) _ e λ text is_text e.
        or_fail_then (get_field "value" fs) _ _ e λ given value e.
          or_fail_then (kind_of_text text) _ _ e λ kind known e.
            or_fail_then (clone_json_value lib given) _ _ e λ cloned carried e.
              let (same_kind, same_value) = same_request kind cloned r e in
              let spelled = kind_of_text_sound text kind known in
              let is_str = fixture_text-eq-ok raw_fixture is_text in
              (
                given,
                (nat_eq_iff _ 2).0 two,
                found ∙ ap some (is_str ∙ ap str (spelled ∙ ap kind_text same_kind)),
                value,
                carried ∙ ap some same_value,
              )

parse_fixture_sound :
    (lib : Library) (params : Option SendParams) (m : Message) (r : FixtureRequest)
    → parse_fixture lib params ≡ ok (m, r)
    → Accepts lib params m r
unfolding parse_fixture
parse_fixture_sound lib params m r e = or_fail_then (message_of params) _ _ e λ m' present e.
    guard_then (not (m'.id == "")) _ _ e λ named e.
      guard_then (is_user m'.role) _ _ e λ from_user e.
        bind_then (one_part m'.parts) _ e λ part one e. bind_then (data_of part) _ e λ fs is_data e.
          bind_then (parse_data lib fs) _ e λ r' parsed e.
            let (same_message, same) = same_pair m m' r r' e in
            let (content, metadata, is_part, inner) = data_of-eq-ok part is_data in
            let (given, two, fixture, value, carried) = parse_data_sound lib fs r' parsed in
            subst (λ x. Accepts lib params x r) same_message
              (subst (λ x. Accepts lib params m' x) same
                (record {
                  present = present;
                  named = not-empty m'.id named;
                  from_user = is_user-eq m'.role from_user;
                  content = content;
                  metadata = metadata;
                  one = one_part-eq-ok m'.parts one ∙ ap (λ p. p ∷ []) is_part;
                  two = ap field_count inner ∙ two;
                  fixture = ap (get_field "fixture") inner ∙ fixture;
                  given = given;
                  value = ap (get_field "value") inner ∙ value;
                  carried = carried;
                }))

parse_data_complete :
    (lib : Library) (fs : Fields) (r : FixtureRequest) (given : Value)
    → field_count fs ≡ 2
    → get_field "fixture" fs ≡ some (str (kind_text r.kind))
    → get_field "value" fs ≡ some given
    → clone_json_value lib given ≡ some r.value
    → parse_data lib fs ≡ ok r
unfolding parse_data
parse_data_complete lib fs r given two fixture value carried =
    rw (two, fixture, kind_text-given r.kind, value)
      (rw (kind_of_text-kind_text r.kind, carried) refl)

parse_fixture_complete :
    (lib : Library) (params : Option SendParams) (m : Message) (r : FixtureRequest)
    → Accepts lib params m r
    → parse_fixture lib params ≡ ok (m, r)
unfolding parse_fixture
parse_fixture_complete lib params m r a =
    rw (a.present, text_ne a.named, ap is_user a.from_user, ap one_part a.one)
      (rw (parse_data_complete lib (entries a.content) r a.given a.two a.fixture a.value a.carried)
        refl)

-- parse_fixture accepts exactly the requests with one data part of two fields, a known fixture and
-- a value that JSON carries, sent by a user under a message id; the result is the message, the kind
-- whose text stands in the fixture field, and the carried value.
pub parse_fixture_iff :
    (lib : Library) (params : Option SendParams) (m : Message) (r : FixtureRequest)
    → (parse_fixture lib params ≡ ok (m, r)) ↔ Accepts lib params m r
parse_fixture_iff lib params m r =
    (parse_fixture_sound lib params m r, parse_fixture_complete lib params m r)
