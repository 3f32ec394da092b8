-- ===== src/RuntimeA/Handler/Combined.antt =====
-- The combined result of a nested call, written as JSON and read again.
use ne_kiro_samples.Base.{
  String, ◌≡◌, ◌≢◌, refl, ap, some, List, ok, guard_then, or_fail_then, or_fail-eq-ok, true, false,
  Bool, ◌&&◌, Option, none, eq_iff, arith, text_ne,
}
use ne_kiro_samples.Base.Dict.{lookup}
use ne_kiro_samples.A2a.{Value, str, raw, obj, Fields, field, end, get_field}
use ne_kiro_samples.Platform.{Library, NestedResult}
use ne_kiro_samples.RuntimeA.Nested.{is_full, combined_fields, combined_result}
use ne_kiro_samples.RuntimeA.Engine.{decoded_raw}
use ne_kiro_samples.RuntimeA.Handler.{combined_data}

-- What a text in a decoded object says of the value that it was made of: a string is read back, and a
-- raw text reads as its value.
abbrev pub Reads : Library → Value → String → Type 0
Reads lib (str s) text = lib.unmarshal_string text ≡ some s
Reads lib (raw r) text = lib.unmarshal text ≡ lib.unmarshal r
Reads lib _ text = Unit {0}

abbrev is_absent : Option Value → Bool
is_absent none = true
is_absent (some v) = false

abbrev pub names_differ : Fields → Bool
names_differ end = true
names_differ (field name v rest) = is_absent (get_field name rest) && names_differ rest

-- A field of an object, found in the decoded texts.
abbrev pub Carries : Library → List (String × String) → String → Value → Type 0
Carries lib fields name v =
    (text : String) × (lookup name fields ≡ some text)
    × (text ≢ "")
    × (lib.valid_json text ≡ true)
    × Reads lib v text

-- What encoding/json promises of the text of an object whose names differ: it is one JSON value, and it
-- decodes into texts of the object's fields under their names.
abbrev pub ObjectsDecode : Library → Type 0
ObjectsDecode lib =
    (fs : Fields) (text : String)
    → names_differ fs ≡ true
    → lib.marshal (obj fs) ≡ some text
    → (text ≢ "")
      × (lib.unmarshal_raw text ≡ some (some text))
      × (fields : List (String × String)) × (lib.unmarshal_fields text ≡ some (some fields))
      × ((name : String) (v : Value) → get_field name fs ≡ some v → Carries lib fields name v)

-- The object of a child's id and result.
abbrev pub child_object : String → String → Fields
child_object child_id child_result =
    field "agent" (str "runtime-a")
      (field "childInvocationId" (str child_id) (field "childResult" (raw child_result) end))

abbrev pub raw_fields : String → String → String → Fields
raw_fields agent_text id_text result_text =
    field "agent" (raw agent_text)
      (field "childInvocationId" (raw id_text) (field "childResult" (raw result_text) end))

combined_data_lem :
    (lib : Library) (child_id child_result text : String) (fields : List (String × String))
    → child_id ≢ ""
    → lib.unmarshal_fields text ≡ some (some fields)
    → (a : Carries lib fields "agent" (str "runtime-a"))
      (i : Carries lib fields "childInvocationId" (str child_id))
      (c : Carries lib fields "childResult" (raw child_result))
    → combined_data lib text ≡ ok (raw_fields a.0 i.0 c.0)
unfolding combined_data
combined_data_lem lib child_id child_result text fields given decoded
      (agent_text, agent_there, agent_filled, agent_valid, agent_name)
      (id_text, id_there, id_filled, id_valid, child)
      (result_text, result_there, filled, valid, same) =
    rw (decoded, agent_there, id_there, result_there)
      (rw (agent_name, child, text_ne given) (rw (text_ne filled, valid) refl))

-- What a combined result was made of.
pub record Combines (lib : Library) (r : NestedResult) (text : String) : Type 0 where
  pub named : r.invocation_id ≢ ""
  pub rooted : r.root_task_id ≢ ""
  pub traced : r.trace_id ≢ ""
  pub succeeded : r.status ≡ "succeeded"
  pub child_result : String
  pub returned : r.result ≡ some child_result
  pub written : lib.marshal (obj (child_object r.invocation_id child_result)) ≡ some text

pub combined_result-Combines :
    (lib : Library) (r : NestedResult) (text : String)
    → combined_result lib (some r) ≡ ok text
    → Combines lib r text
unfolding combined_result
combined_result-Combines lib r text e = guard_then (is_full r) _ _ e λ full e.
    or_fail_then r.result _ _ e λ child_result returned e.
      let (named, rooted, traced, succeeded) = full_facts full in
      record {
        named = named;
        rooted = rooted;
        traced = traced;
        succeeded = succeeded;
        child_result = child_result;
        returned = returned;
        written = or_fail-eq-ok (lib.marshal (combined_fields r.invocation_id child_result)) _ e;
      }
  where
    full_facts :
        is_full r ≡ true
        → (r.invocation_id ≢ "")
          × (r.root_task_id ≢ "")
          × (r.trace_id ≢ "")
          × (r.status ≡ "succeeded")
    full_facts full = ground (
      arith,
      eq_iff r.invocation_id "",
      eq_iff r.root_task_id "",
      eq_iff r.trace_id "",
      eq_iff r.status "succeeded",
    )

pub Combines-combined_result :
    (lib : Library) (r : NestedResult) (text : String)
    → Combines lib r text
    → combined_result lib (some r) ≡ ok text
unfolding combined_result
Combines-combined_result lib r text c =
    rw (text_ne c.named, text_ne c.rooted, text_ne c.traced, c.succeeded)
      (rw c.returned (rw c.written refl))

-- How the text of a combined result is read: by the loop's JSON test as it is, and by combinedData as
-- three raw fields.
abbrev pub ReadBack : Library → NestedResult → String → Type 0
ReadBack lib r text =
    (text ≢ "")
    × (decoded_raw (lib.unmarshal_raw text) ≡ some text)
    × (agent_text id_text result_text child_result : String) × (combined_data lib text
        ≡ ok (raw_fields agent_text id_text result_text))
    × (lib.unmarshal_string agent_text ≡ some "runtime-a")
    × (lib.unmarshal_string id_text ≡ some r.invocation_id)
    × (r.result ≡ some child_result)
    × (lib.unmarshal result_text ≡ lib.unmarshal child_result)

pub Combines-ReadBack :
    (lib : Library) (r : NestedResult) (text : String)
    → ObjectsDecode lib
    → Combines lib r text
    → ReadBack lib r text
unfolding lookup
Combines-ReadBack lib r text decodes c =
    let (filled, raw_text, fields, decoded, carries) =
      decodes (child_object r.invocation_id c.child_result) text refl c.written in
    let a = carries "agent" (str "runtime-a") refl in
    let i = carries "childInvocationId" (str r.invocation_id) refl in
    let s = carries "childResult" (raw c.child_result) refl in
    (
      filled,
      ap decoded_raw raw_text,
      a.0,
      i.0,
      s.0,
      c.child_result,
      combined_data_lem lib r.invocation_id c.child_result text fields c.named decoded a i s,
      a.4,
      i.4,
      c.returned,
      s.4,
    )

-- If objects decode, the text that combinedResult writes for a nested result is read back by the loop's
-- JSON test as it is, and by combinedData as three raw fields: the agent "runtime-a", the invocation id
-- of the child, and a text with the JSON value of the child's result.
pub combined_roundtrip :
    (lib : Library) (r : NestedResult) (text : String)
    → ObjectsDecode lib
    → combined_result lib (some r) ≡ ok text
    → ReadBack lib r text
combined_roundtrip lib r text decodes e =
    Combines-ReadBack lib r text decodes (combined_result-Combines lib r text e)
