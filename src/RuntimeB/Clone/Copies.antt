-- ===== src/RuntimeB/Clone/Copies.antt =====
-- What a copy of a message is (cloneMessage of runtime-b/handler.go).
use ne_kiro_samples.Base.{
  String, ◌≡◌, refl, sym, subst, ◌↔◌, Option, none, some, List, [], ◌∷◌, ok, ok_inj, >>=-eq-ok,
}
use ne_kiro_samples.A2a.{
  obj, Fields, JsonMap, Part, data_part, text_part, file_part, other_part, FileContent, file_bytes,
  file_uri, other_content, Message,
}
use ne_kiro_samples.Platform.{Library}
use ne_kiro_samples.RuntimeB.Fixture.{clone_json_value}
use ne_kiro_samples.RuntimeB.Clone.{
  clone_json_map, clone_part, clone_parts, clone_file_part_content, clone_message, clone_each,
}
use ne_kiro_samples.RuntimeB.Clone.Laws.{as_map-eq-ok}

-- A nil map stays one; another is what its JSON text decodes to.
pub data CopiedMap (lib : Library) : JsonMap → JsonMap → Type 0 where
  nil : CopiedMap lib none none
  decoded :
      {fs gs : Fields} (text : String)
      → lib.marshal (obj fs) ≡ some text
      → lib.unmarshal text ≡ some (obj gs)
      → CopiedMap lib (some fs) (some gs)

pub data CopiedContent : FileContent → FileContent → Type 0 where
  same_bytes : (b : String) → CopiedContent (file_bytes b) (file_bytes b)
  same_uri : (u : String) → CopiedContent (file_uri u) (file_uri u)

-- A part is copied with its maps, and its text, bytes or URI stay; there is no copy of another part.
pub data CopiedPart (lib : Library) : Part → Part → Type 0 where
  data_copied :
      {c c' m m' : JsonMap}
      → CopiedMap lib c c'
      → CopiedMap lib m m'
      → CopiedPart lib (data_part c m) (data_part c' m')
  text_copied :
      {m m' : JsonMap} (t : String)
      → CopiedMap lib m m'
      → CopiedPart lib (text_part t m) (text_part t m')
  file_copied :
      {c c' : FileContent} {m m' : JsonMap}
      → CopiedContent c c'
      → CopiedMap lib m m'
      → CopiedPart lib (file_part c m) (file_part c' m')

pub data CopiedParts (lib : Library) : List Part → List Part → Type 0 where
  no_parts : CopiedParts lib [] []
  next_part :
      {p q : Part} {ps qs : List Part}
      → CopiedPart lib p q
      → CopiedParts lib ps qs
      → CopiedParts lib (p ∷ ps) (q ∷ qs)

pub record CopyOf (lib : Library) (m n : Message) : Type 0 where
  pub same_id : n.id ≡ m.id
  pub same_context : n.context_id ≡ m.context_id
  pub same_task : n.task_id ≡ m.task_id
  pub same_role : n.role ≡ m.role
  pub same_extensions : n.extensions ≡ m.extensions
  pub same_references : n.reference_tasks ≡ m.reference_tasks
  pub metadata : CopiedMap lib m.metadata n.metadata
  pub parts : CopiedParts lib m.parts n.parts

module _ (lib : Library) where
  clone_json_value-texts :
      (fs gs : Fields)
      → clone_json_value lib (obj fs) ≡ some (obj gs)
      → CopiedMap lib (some fs) (some gs)
  unfolding clone_json_value
  clone_json_value-texts fs gs e = go (lib.marshal (obj fs)) refl e
    where
      go :
          (o : Option String)
          → lib.marshal (obj fs) ≡ o
          → elim o [ none ↦ none | some encoded ↦ lib.unmarshal encoded ] ≡ some (obj gs)
          → CopiedMap lib (some fs) (some gs)
      go none made e = cc
      go (some text) made e = decoded text made e

  map_sound : (m n : JsonMap) → clone_json_map lib m ≡ ok n → CopiedMap lib m n
  unfolding clone_json_map
  map_sound none n e = subst (CopiedMap lib none) (ok_inj e) nil
  map_sound (some fs) n e =
      let (gs, copied, result) = as_map-eq-ok _ _ e in
      subst (CopiedMap lib (some fs)) (sym result) (clone_json_value-texts fs gs copied)

  map_complete : {m n : JsonMap} → CopiedMap lib m n → clone_json_map lib m ≡ ok n
  unfolding clone_json_map clone_json_value
  map_complete nil = refl
  map_complete (decoded {fs} {gs} text made read) = rw value refl
    where
      value : clone_json_value lib (obj fs) ≡ some (obj gs)
      value = rw (clone_json_value, made) read

  content_sound : (c d : FileContent) → clone_file_part_content lib c ≡ ok d → CopiedContent c d
  unfolding clone_file_part_content
  content_sound (file_bytes b) d e = subst (CopiedContent (file_bytes b)) (ok_inj e) (same_bytes b)
  content_sound (file_uri u) d e = subst (CopiedContent (file_uri u)) (ok_inj e) (same_uri u)
  content_sound (other_content n) d e = cc

  content_complete : {c d : FileContent} → CopiedContent c d → clone_file_part_content lib c ≡ ok d
  unfolding clone_file_part_content
  content_complete (same_bytes b) = refl
  content_complete (same_uri u) = refl

  part_sound : (p q : Part) → clone_part lib p ≡ ok q → CopiedPart lib p q
  unfolding clone_part
  part_sound (data_part c m) q e =
      let (c', content, rest) = >>=-eq-ok (clone_json_map lib c) _ e in
      let (m', meta, last) = >>=-eq-ok (clone_json_map lib m) _ rest in
      subst (CopiedPart lib (data_part c m)) (ok_inj last)
        (data_copied (map_sound c c' content) (map_sound m m' meta))
  part_sound (text_part t m) q e =
      let (m', meta, last) = >>=-eq-ok (clone_json_map lib m) _ e in
      subst (CopiedPart lib (text_part t m)) (ok_inj last) (text_copied t (map_sound m m' meta))
  part_sound (file_part c m) q e =
      let (m', meta, rest) = >>=-eq-ok (clone_json_map lib m) _ e in
      let (c', content, last) = >>=-eq-ok (clone_file_part_content lib c) _ rest in
      subst (CopiedPart lib (file_part c m)) (ok_inj last)
        (file_copied (content_sound c c' content) (map_sound m m' meta))
  part_sound (other_part n) q e = cc

  part_complete : {p q : Part} → CopiedPart lib p q → clone_part lib p ≡ ok q
  unfolding clone_part
  part_complete (data_copied content meta) = rw (map_complete content, map_complete meta) refl
  part_complete (text_copied t meta) = rw (map_complete meta) refl
  part_complete (file_copied content meta) = rw (map_complete meta, content_complete content) refl

  parts_sound : (ps qs : List Part) → clone_parts lib ps ≡ ok qs → CopiedParts lib ps qs
  unfolding clone_parts
  parts_sound [] qs e = subst (CopiedParts lib []) (ok_inj e) no_parts
  parts_sound (p ∷ ps) qs e =
      let (q, first, rest) = >>=-eq-ok (clone_part lib p) _ e in
      let (rs, others, last) = >>=-eq-ok (clone_each (clone_part lib) ps) _ rest in
      subst (CopiedParts lib (p ∷ ps)) (ok_inj last)
        (next_part (part_sound p q first) (parts_sound ps rs others))

  parts_complete : {ps qs : List Part} → CopiedParts lib ps qs → clone_parts lib ps ≡ ok qs
  unfolding clone_parts
  parts_complete no_parts = refl
  parts_complete (next_part first others) = rw (part_complete first, parts_complete others) refl

  -- cloneMessage returns a message exactly when it is a copy: the id, context, task, role, extensions
  -- and reference tasks are the same, the metadata map is what its own JSON text decodes to, and each
  -- part is copied in its place, with its maps copied in this way and its text, bytes or URI kept.
  pub clone_message_iff : (m n : Message) → (clone_message lib m ≡ ok n) ↔ CopyOf lib m n
  unfolding clone_message
  clone_message_iff m n =
      (sound, λ c. rw (map_complete c.metadata, parts_complete c.parts) (complete c))
    where
      sound : clone_message lib m ≡ ok n → CopyOf lib m n
      sound e =
          let (meta, copied, rest) = >>=-eq-ok (clone_json_map lib m.metadata) _ e in
          let (parts, each, last) = >>=-eq-ok (clone_parts lib m.parts) _ rest in
          subst (CopyOf lib m) (ok_inj last) (record {
            same_id = refl;
            same_context = refl;
            same_task = refl;
            same_role = refl;
            same_extensions = refl;
            same_references = refl;
            metadata = map_sound m.metadata meta copied;
            parts = parts_sound m.parts parts each;
          })

      complete : CopyOf lib m n → ok (record m { metadata = n.metadata; parts = n.parts }) ≡ ok n
      complete c =
          rw
            (
              ← c.same_id,
              ← c.same_context,
              ← c.same_task,
              ← c.same_role,
              ← c.same_extensions,
              ← c.same_references,
            )
            refl
