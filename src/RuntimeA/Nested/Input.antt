-- ===== src/RuntimeA/Nested/Input.antt =====
-- Which messages Runtime A accepts, and the input that it makes of one.
use ne_kiro_samples.Base.{
  String, true, not, ◌≡◌, refl, ap, ◌∙◌, ◌≢◌, ◌↔◌, Option, none, some, List, [], ◌∷◌, ◌==◌, nat_eq,
  nat_eq_iff, arith, eq_iff, text_ne, ok, bind_then, guard_then, or_fail_then, or_fail-eq-ok,
}
use ne_kiro_samples.Base.Dict.{lookup}
use ne_kiro_samples.A2a.{
  Value, null, bool, int, str, raw, arr, obj, opaque, Fields, field_count, get_field, JsonMap,
  entries, Part, data_part, text_part, file_part, other_part, Role, user, Message,
}
use ne_kiro_samples.Platform.{Library}
use ne_kiro_samples.RuntimeA.Nested.{
  is_user, one_part, data_of, is_success, input_fields, root_input, root_input_value,
}

-- A user's message with an id and one data part of two fields, the fixture "success" and a value that
-- JSON carries; `encoded` is the value's text.
pub record Accepts (lib : Library) (m : Message) (input : String) : Type 0 where
  pub named : m.id ≢ ""
  pub from_user : m.role ≡ user
  pub content : JsonMap
  pub metadata : JsonMap
  pub one : m.parts ≡ data_part content metadata ∷ []
  pub two : field_count (entries content) ≡ 2
  pub fixture : get_field "fixture" (entries content) ≡ some (str "success")
  pub given : Value
  pub value : get_field "value" (entries content) ≡ some given
  pub encoded : String
  pub marshalled : lib.marshal given ≡ some encoded
  pub carried :
      lib.marshal_fields (("fixture", "\"success\"") ∷ ("value", encoded) ∷ []) ≡ some input

one_part-eq-ok : (ps : List Part) {p : Part} → one_part ps ≡ ok p → ps ≡ p ∷ []
one_part-eq-ok ps e = ground arith

data_of-eq-ok :
    (p : Part) {fs : Fields}
    → data_of p ≡ ok fs
    → (content : JsonMap) × (metadata : JsonMap) × (p ≡ data_part content metadata)
      × (entries content ≡ fs)
data_of-eq-ok (data_part c m) e = (c, m, refl, cc)
data_of-eq-ok (text_part t m) e = cc
data_of-eq-ok (file_part c m) e = cc
data_of-eq-ok (other_part n) e = cc

is_success-eq : (o : Option Value) → is_success o ≡ true → o ≡ some (str "success")
is_success-eq none e = cc
is_success-eq (some (str s)) e = ap (λ t. some (str t)) ((eq_iff s "success").0 e)
is_success-eq (some null) e = cc
is_success-eq (some (bool b)) e = cc
is_success-eq (some (int n)) e = cc
is_success-eq (some (raw s)) e = cc
is_success-eq (some (arr xs)) e = cc
is_success-eq (some (obj fs)) e = cc
is_success-eq (some (opaque n)) e = cc

not-empty : (s : String) → not (s == "") ≡ true → s ≢ ""
not-empty s e q = ground (arith, eq_iff s "")

is_user-eq : (r : Role) → is_user r ≡ true → r ≡ user
is_user-eq r e = ground arith

root_input_sound :
    (lib : Library) (m : Message) (input : String)
    → root_input lib (some m) ≡ ok input
    → Accepts lib m input
unfolding root_input
root_input_sound lib m input e = guard_then (not (m.id == "")) _ _ e λ named e.
    guard_then (is_user m.role) _ _ e λ from_user e. bind_then (one_part m.parts) _ e λ part one e.
      bind_then (data_of part) _ e λ fs is_data e.
        guard_then (nat_eq (field_count fs) 2) _ _ e λ two e.
          guard_then (is_success (get_field "fixture" fs)) _ _ e λ fixture e.
            or_fail_then (get_field "value" fs) _ _ e λ given value e.
              or_fail_then (lib.marshal given) _ _ e λ encoded marshalled e.
                let (content, metadata, is_part, inner) = data_of-eq-ok part is_data in
                record {
                  named = not-empty m.id named;
                  from_user = is_user-eq m.role from_user;
                  content = content;
                  metadata = metadata;
                  one = one_part-eq-ok m.parts one ∙ ap (λ p. p ∷ []) is_part;
                  two = ap field_count inner ∙ (nat_eq_iff (field_count fs) 2).0 two;
                  fixture =
                      ap (get_field "fixture") inner
                      ∙ is_success-eq (get_field "fixture" fs) fixture;
                  given = given;
                  value = ap (get_field "value") inner ∙ value;
                  encoded = encoded;
                  marshalled = marshalled;
                  carried = or_fail-eq-ok (lib.marshal_fields (input_fields encoded)) _ e;
                }

root_input_complete :
    (lib : Library) (m : Message) (input : String)
    → Accepts lib m input
    → root_input lib (some m) ≡ ok input
unfolding root_input
root_input_complete lib m input a =
    rw (text_ne a.named, ap is_user a.from_user, ap one_part a.one)
      (rw (a.two, a.fixture, a.value) (rw a.marshalled (rw a.carried refl)))

-- rootInput accepts exactly the messages of a user, under an id, with one data part of two fields: the
-- fixture "success" and a value that JSON carries; the input is the JSON object of the fixture's text
-- "success" and the value's text, under these two names and in this order.
pub root_input_iff :
    (lib : Library) (m : Message) (input : String)
    → (root_input lib (some m) ≡ ok input) ↔ Accepts lib m input
root_input_iff lib m input = (root_input_sound lib m input, root_input_complete lib m input)

-- What encoding/json promises of the input's object: it decodes to the two raw texts that it was made
-- of, of which the value's is valid JSON and not empty.
abbrev pub InputsDecode : Library → Type 0
InputsDecode lib =
    (v : Value) (encoded input : String)
    → lib.marshal v ≡ some encoded
    → lib.marshal_fields (("fixture", "\"success\"") ∷ ("value", encoded) ∷ []) ≡ some input
    → (lib.unmarshal_fields input
        ≡ some (some (("fixture", "\"success\"") ∷ ("value", encoded) ∷ [])))
      × (lib.valid_json encoded ≡ true)
      × (encoded ≢ "")

-- If inputs decode, rootInputValue gives back the text of the value of each accepted message.
pub root_input_value_roundtrip :
    (lib : Library) (m : Message) (input : String)
    → InputsDecode lib
    → (a : Accepts lib m input) → root_input_value lib (some m) ≡ ok a.encoded
unfolding root_input_value lookup
root_input_value_roundtrip lib m input decodes a =
    let (fields, valid, filled) = decodes a.given a.encoded input a.marshalled a.carried in
    rw (root_input_complete lib m input a, fields) (rw (text_ne filled, valid) refl)
