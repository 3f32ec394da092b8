-- ===== src/RuntimeB/Fixture/Refusals.antt =====
-- The errors of parseFixture (runtime-b/fixture.go).
use ne_kiro_samples.Base.{
  String, not, Bool, true, false, if◌then◌else◌, ◌≡◌, sym, ◌==◌, Option, List, [], ◌∷◌, ok, err,
  Error, invalid_params, nat_eq, err_inj, bind_fails, guard_fails, or_fail_fails,
}
use ne_kiro_samples.A2a.{
  Value, null, bool, int, str, raw, arr, obj, opaque, Fields, field_count, get_field, Part,
  data_part, text_part, file_part, other_part,
}
use ne_kiro_samples.Platform.{Library}
use ne_kiro_samples.RuntimeB.Fixture.{
  SendParams, message_of, is_user, one_part, data_of, fixture_text, kind_of_text, clone_json_value,
  parse_data, parse_fixture,
}

abbrev pub IsRefusal : Error → Type 0
IsRefusal e = (text : String) × (e ≡ invalid_params text)

refused_by : {text : String} {e : Error} → invalid_params text ≡ e → IsRefusal e
refused_by {text} q = (text, sym q)

one_part-IsRefusal : (ps : List Part) {e : Error} → one_part ps ≡ err e → IsRefusal e
one_part-IsRefusal [] q = refused_by (err_inj q)
one_part-IsRefusal (p ∷ []) q = cc
one_part-IsRefusal (p ∷ r ∷ ps) q = refused_by (err_inj q)

data_of-IsRefusal : (p : Part) {e : Error} → data_of p ≡ err e → IsRefusal e
data_of-IsRefusal (data_part c m) q = cc
data_of-IsRefusal (text_part t m) q = refused_by (err_inj q)
data_of-IsRefusal (file_part c m) q = refused_by (err_inj q)
data_of-IsRefusal (other_part n) q = refused_by (err_inj q)

fixture_text-IsRefusal : (v : Value) {e : Error} → fixture_text v ≡ err e → IsRefusal e
fixture_text-IsRefusal null q = refused_by (err_inj q)
fixture_text-IsRefusal (bool b) q = refused_by (err_inj q)
fixture_text-IsRefusal (int n) q = refused_by (err_inj q)
fixture_text-IsRefusal (raw s) q = refused_by (err_inj q)
fixture_text-IsRefusal (arr xs) q = refused_by (err_inj q)
fixture_text-IsRefusal (obj fs) q = refused_by (err_inj q)
fixture_text-IsRefusal (opaque n) q = refused_by (err_inj q)
fixture_text-IsRefusal (str s) {e} q = go (s == "") q
  where
    go :
        (b : Bool)
        → (if b then err (invalid_params "fixture must be a non-empty string") else ok s) ≡ err e
        → IsRefusal e
    go true q = refused_by (err_inj q)
    go false q = cc

module _ (lib : Library) where
  parse_data-IsRefusal :
      (content : Fields) {e : Error} → parse_data lib content ≡ err e → IsRefusal e
  unfolding parse_data
  parse_data-IsRefusal content q =
      guard_fails (nat_eq (field_count content) 2) _ _ q (λ _ r. refused_by r)
        λ _ q.
          or_fail_fails (get_field "fixture" content) _ _ q (λ _ r. refused_by r)
            λ fixture _ q.
              bind_fails (fixture_text fixture) _ q (fixture_text-IsRefusal fixture) λ name _ q.
                or_fail_fails (get_field "value" content) _ _ q (λ _ r. refused_by r)
                  λ value _ q.
                    or_fail_fails (kind_of_text name) _ _ q (λ _ r. refused_by r)
                      λ kind _ q.
                        or_fail_fails (clone_json_value lib value) _ _ q (λ _ r. refused_by r)
                          λ cloned _ q. cc

  pub parse_fixture-IsRefusal :
      (params : Option SendParams) {e : Error} → parse_fixture lib params ≡ err e → IsRefusal e
  unfolding parse_fixture
  parse_fixture-IsRefusal params q =
      or_fail_fails (message_of params) _ _ q (λ _ r. refused_by r)
        λ message _ q.
          guard_fails (not (message.id == "")) _ _ q (λ _ r. refused_by r)
            λ _ q.
              guard_fails (is_user message.role) _ _ q (λ _ r. refused_by r)
                λ _ q.
                  bind_fails (one_part message.parts) _ q (one_part-IsRefusal message.parts)
                    λ part _ q.
                      bind_fails (data_of part) _ q (data_of-IsRefusal part) λ content _ q.
                        bind_fails (parse_data lib content) _ q (parse_data-IsRefusal content)
                          λ request _ q. cc
