-- ===== src/RuntimeB/Clone/Laws.antt =====
-- Copies of A2A values: what a copy keeps, and that copying a copy changes nothing.
use ne_kiro_samples.Base.{
  String, ◌≡◌, refl, Option, none, some, List, [], ◌∷◌, Outcome, ok, arith, ◌>>=◌, >>=-eq-ok,
}
use ne_kiro_samples.A2a.{
  Value, null, bool, int, str, raw, arr, obj, opaque, Fields, JsonMap, Part, data_part, text_part,
  file_part, other_part, FileContent, file_bytes, file_uri, other_content, Message,
}
use ne_kiro_samples.Platform.{Library}
use ne_kiro_samples.RuntimeB.Fixture.{clone_json_value}
use ne_kiro_samples.RuntimeB.Clone.{
  as_map, or_panic, clone_json_map, clone_part, clone_parts, clone_file_part_content, clone_message,
  clone_each,
}

-- What encoding/json promises: a value that Unmarshal has made is carried over by a further copy
-- without a change.
abbrev pub CopiesAreStable : Library → Type 0
CopiesAreStable lib =
    (v w : Value) → clone_json_value lib v ≡ some w → clone_json_value lib w ≡ some w

pub as_map-eq-ok :
    (o : Option Value) (m : String) {n : JsonMap}
    → (or_panic o m >>= as_map) ≡ ok n
    → (gs : Fields) × (o ≡ some (obj gs)) × (n ≡ some gs)
as_map-eq-ok (some (obj gs)) m e = (gs, refl, cc)
as_map-eq-ok none m e = cc
as_map-eq-ok (some null) m e = cc
as_map-eq-ok (some (bool b)) m e = cc
as_map-eq-ok (some (int n)) m e = cc
as_map-eq-ok (some (str s)) m e = cc
as_map-eq-ok (some (raw s)) m e = cc
as_map-eq-ok (some (arr xs)) m e = cc
as_map-eq-ok (some (opaque n)) m e = cc

clone_each-stable {ℓ} :
    {A : Type ℓ} (f : A → Outcome A)
    → ((x y : A) → f x ≡ ok y → f y ≡ ok y)
    → (xs ys : List A) → clone_each f xs ≡ ok ys
    → clone_each f ys ≡ ok ys
clone_each-stable f keep [] ys e = ground arith
clone_each-stable f keep (x ∷ xs) ys e =
    let (y, fx, rest) = >>=-eq-ok (f x) _ e in
    let (zs, fxs, last) = >>=-eq-ok (clone_each f xs) _ rest in
    let later = clone_each-stable f keep xs zs fxs in let here = keep x y fx in ground arith

module _ (lib : Library) (stable : CopiesAreStable lib) where
  clone_json_map-stable :
      (m n : JsonMap) → clone_json_map lib m ≡ ok n → clone_json_map lib n ≡ ok n
  unfolding clone_json_map
  clone_json_map-stable none n e = ground arith
  clone_json_map-stable (some fs) n e =
      let (gs, copied, result) = as_map-eq-ok _ _ e in
      rw (result, stable (obj fs) (obj gs) copied) refl

  clone_file_part_content-stable :
      (c d : FileContent)
      → clone_file_part_content lib c ≡ ok d
      → clone_file_part_content lib d ≡ ok d
  unfolding clone_file_part_content
  clone_file_part_content-stable (file_bytes b) d e = ground arith
  clone_file_part_content-stable (file_uri u) d e = ground arith
  clone_file_part_content-stable (other_content n) d e = cc

  clone_part-stable : (p q : Part) → clone_part lib p ≡ ok q → clone_part lib q ≡ ok q
  unfolding clone_part
  clone_part-stable (data_part c m) q e =
      let (c', cc', rest) = >>=-eq-ok (clone_json_map lib c) _ e in
      let (m', mm', last) = >>=-eq-ok (clone_json_map lib m) _ rest in
      let sc = clone_json_map-stable c c' cc' in
      let sm = clone_json_map-stable m m' mm' in ground arith
  clone_part-stable (text_part t m) q e =
      let (m', mm', last) = >>=-eq-ok (clone_json_map lib m) _ e in
      let sm = clone_json_map-stable m m' mm' in ground arith
  clone_part-stable (file_part c m) q e =
      let (m', mm', rest) = >>=-eq-ok (clone_json_map lib m) _ e in
      let (c', cc', last) = >>=-eq-ok (clone_file_part_content lib c) _ rest in
      let sm = clone_json_map-stable m m' mm' in
      let sc = clone_file_part_content-stable c c' cc' in ground arith
  clone_part-stable (other_part n) q e = cc

  clone_parts-stable : (ps qs : List Part) → clone_parts lib ps ≡ ok qs → clone_parts lib qs ≡ ok qs
  unfolding clone_parts
  clone_parts-stable = clone_each-stable (clone_part lib) clone_part-stable

  -- If JSON copies are stable, a copy of a message is a message that copies to itself.
  pub clone_message-stable :
      (m n : Message) → clone_message lib m ≡ ok n → clone_message lib n ≡ ok n
  unfolding clone_message
  clone_message-stable m n e =
      let (meta, cm, rest) = >>=-eq-ok (clone_json_map lib m.metadata) _ e in
      let (parts, cp, last) = >>=-eq-ok (clone_parts lib m.parts) _ rest in
      let sm = clone_json_map-stable m.metadata meta cm in
      let sp = clone_parts-stable m.parts parts cp in ground arith
