-- ===== src/RuntimeB/Clone/Errors.antt =====
-- The errors of cloneMessage (runtime-b/handler.go).
use ne_kiro_samples.Base.{
  String, ◌≢◌, Option, none, some, List, [], ◌∷◌, err, Error, ◌>>=◌, bind_fails,
}
use ne_kiro_samples.A2a.{
  Value, null, bool, int, str, raw, arr, obj, opaque, JsonMap, FileContent, file_bytes, file_uri,
  other_content, Part, data_part, text_part, file_part, other_part, Message,
}
use ne_kiro_samples.Platform.{Library}
use ne_kiro_samples.RuntimeB.Clone.{
  as_map, or_panic, clone_json_map, clone_part, clone_parts, clone_file_part_content, clone_message,
  clone_each,
}

as_map_never_fails : (o : Option Value) (m : String) {e : Error} → (or_panic o m >>= as_map) ≢ err e
as_map_never_fails (some (obj gs)) m e = cc
as_map_never_fails none m e = cc
as_map_never_fails (some null) m e = cc
as_map_never_fails (some (bool b)) m e = cc
as_map_never_fails (some (int n)) m e = cc
as_map_never_fails (some (str s)) m e = cc
as_map_never_fails (some (raw s)) m e = cc
as_map_never_fails (some (arr xs)) m e = cc
as_map_never_fails (some (opaque n)) m e = cc

module _ (lib : Library) where
  clone_json_map_never_fails : (m : JsonMap) {e : Error} → clone_json_map lib m ≢ err e
  unfolding clone_json_map
  clone_json_map_never_fails none e = cc
  clone_json_map_never_fails (some fs) e = as_map_never_fails _ _ e

  clone_file_part_content_never_fails :
      (c : FileContent) {e : Error} → clone_file_part_content lib c ≢ err e
  unfolding clone_file_part_content
  clone_file_part_content_never_fails (file_bytes b) e = cc
  clone_file_part_content_never_fails (file_uri u) e = cc
  clone_file_part_content_never_fails (other_content n) e = cc

  clone_part_never_fails : (p : Part) {e : Error} → clone_part lib p ≢ err e
  unfolding clone_part
  clone_part_never_fails (data_part c m) e =
      bind_fails (clone_json_map lib c) _ e (clone_json_map_never_fails c) λ c' content e.
        bind_fails (clone_json_map lib m) _ e (clone_json_map_never_fails m) λ m' meta e. cc
  clone_part_never_fails (text_part t m) e =
      bind_fails (clone_json_map lib m) _ e (clone_json_map_never_fails m) λ m' meta e. cc
  clone_part_never_fails (file_part c m) e =
      bind_fails (clone_json_map lib m) _ e (clone_json_map_never_fails m) λ m' meta e.
        bind_fails (clone_file_part_content lib c) _ e (clone_file_part_content_never_fails c)
          λ c' content e. cc
  clone_part_never_fails (other_part n) e = cc

  clone_parts_never_fails : (ps : List Part) {e : Error} → clone_parts lib ps ≢ err e
  unfolding clone_parts
  clone_parts_never_fails [] e = cc
  clone_parts_never_fails (p ∷ ps) e =
      bind_fails (clone_part lib p) _ e (clone_part_never_fails p) λ q first e.
        bind_fails (clone_each (clone_part lib) ps) _ e (clone_parts_never_fails ps)
          λ qs others e. cc

  pub clone_message_never_fails : (m : Message) {e : Error} → clone_message lib m ≢ err e
  unfolding clone_message
  clone_message_never_fails m e =
      bind_fails (clone_json_map lib m.metadata) _ e (clone_json_map_never_fails m.metadata)
        λ meta copied e.
          bind_fails (clone_parts lib m.parts) _ e (clone_parts_never_fails m.parts)
            λ parts each e. cc
