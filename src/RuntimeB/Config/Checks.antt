-- ===== src/RuntimeB/Config/Checks.antt =====
-- What each check of runtime-b/config.go accepts.
use ne_kiro_samples.Base.{
  String, ℕ, true, false, not, ◌==◌, ◌≡◌, ◌≢◌, ◌≤◌, ◌⊎◌, ◌↔◌, inl, inr, refl, ap, ◌∙◌, none, some,
  Option, ok, arith, eq_iff, text_ne, bind_then, subst, ok_inj, Bool-cases, ◌||◌, guard_then,
  or_fail_then, guard-eq-ok,
}
use ne_kiro_samples.Identifier.{is_digit, all_characters, is_identifier}
use ne_kiro_samples.Settings.{Lookup, Environment, Url}
use ne_kiro_samples.Settings.Valid.{IsText, IsName, IsLimit}
use ne_kiro_samples.RuntimeB.Config.{
  validate_required_value, validate_identifier_value, required_value, required_limit, within_limits,
  validate_router_url, is_origin, is_port,
}

module _ (env : Environment) where
  pub IsText-iff :
      (name value : String) → (validate_required_value env name value ≡ ok tt) ↔ IsText env value
  unfolding validate_required_value
  IsText-iff name value = (
    λ e. guard_then (not (value == "")) _ _ e λ filled e. record {
      filled = ground (arith, eq_iff value "");
      trimmed = (eq_iff (env.trim_space value) value).0 (guard-eq-ok _ _ e);
    },
    λ t. rw (text_ne t.filled, (eq_iff (env.trim_space value) value).1 t.trimmed) refl,
  )

  pub IsName-iff :
      (name value : String) → (validate_identifier_value env name value ≡ ok tt) ↔ IsName env value
  unfolding validate_identifier_value
  IsName-iff name value = (
    λ e. bind_then (validate_required_value env name value) _ e λ _ text e. record {
      text = (IsText-iff name value).0 text;
      safe = guard-eq-ok (is_identifier value) _ e;
    },
    λ n. rw ((IsText-iff name value).1 n.text, n.safe) refl,
  )

  within : (n : ℕ) → within_limits env n ≡ true → (env.limit_minimum ≤ n) × (n ≤ env.limit_maximum)
  within n e = ground arith

  pub within_from :
      (n : ℕ) → env.limit_minimum ≤ n → n ≤ env.limit_maximum → within_limits env n ≡ true
  within_from n low high = ground arith

  pub IsLimit-iff :
      (lookup : Lookup) (name : String) (n : ℕ)
      → (required_limit env lookup name ≡ ok n) ↔ IsLimit env lookup name n
  unfolding required_limit required_value
  IsLimit-iff lookup name n = (
    λ e. bind_then (required_value env lookup name) _ e λ digits read e.
        or_fail_then (lookup name) _ _ read λ found there r.
          bind_then (validate_required_value env name found) _ r λ _ text r.
            guard_then (all_characters is_digit digits) _ _ e λ only_digits e.
              or_fail_then (env.parse_int digits) _ _ e λ number parsed e.
                guard_then (within_limits env number) _ _ e λ fits e.
                  let (low, high) = within number fits in
                  subst (IsLimit env lookup name) (ok_inj e) (record {
                    digits = digits;
                    there = there ∙ ap some (ok_inj r);
                    text = subst (IsText env) (ok_inj r) ((IsText-iff name found).0 text);
                    only_digits = only_digits;
                    parsed = parsed;
                    from_minimum = low;
                    to_maximum = high;
                  }),
    λ l.
        rw (l.there, (IsText-iff name l.digits).1 l.text)
          (rw (l.only_digits, l.parsed, within_from n l.from_minimum l.to_maximum) refl),
  )

-- An http or https URL of a host and no more than a port.
pub record IsOrigin (env : Environment) (value : String) : Type 0 where
  pub url : Url
  pub parsed : env.parse_url value ≡ some url
  pub scheme : (url.scheme ≡ "http") ⊎ (url.scheme ≡ "https")
  pub hosted : url.host ≢ ""
  pub whole_port : env.has_suffix url.host ":" ≡ false
  pub no_user : url.has_user ≡ false
  pub no_path : url.path ≡ ""
  pub no_raw_path : url.raw_path ≡ ""
  pub no_query : url.raw_query ≡ ""
  pub unforced : url.force_query ≡ false
  pub no_mark : env.contains value "#" ≡ false
  pub no_fragment : url.fragment ≡ ""
  pub no_raw_fragment : url.raw_fragment ≡ ""
  pub port : (url.port ≡ "") ⊎ ((n : ℕ) × (env.parse_int url.port ≡ some n) × (1 ≤ n) × (n ≤ 65535))
  pub named : url.host_name ≢ ""

abbrev IsPort : String → Option ℕ → Type 0
IsPort text read = (text ≡ "") ⊎ ((n : ℕ) × (read ≡ some n) × (1 ≤ n) × (n ≤ 65535))

IsPort-sound :
    (env : Environment) (text : String) (read : Option ℕ)
    → (text == "" || is_port env read) ≡ true
    → IsPort text read
IsPort-sound env text none e = inl (ground (arith, eq_iff text ""))
IsPort-sound env text (some n) e = elim (Bool-cases (text == "")) [
  | inl empty ↦ inl ((eq_iff text "").0 empty)
  | inr other ↦ inr (n, refl, ground arith, ground arith)
]

IsPort-complete :
    (env : Environment) (text : String) (read : Option ℕ)
    → IsPort text read
    → (text == "" || is_port env read) ≡ true
IsPort-complete env text read (inl empty) = rw empty refl
IsPort-complete env text read (inr (n, there, low, high)) = rw there (ground arith)

abbrev Origin : Environment → String → Url → Type 0
Origin env value u =
    ((u.scheme ≡ "http") ⊎ (u.scheme ≡ "https"))
    × (u.host ≢ "")
    × (env.has_suffix u.host ":" ≡ false)
    × (u.has_user ≡ false)
    × (u.path ≡ "")
    × (u.raw_path ≡ "")
    × (u.raw_query ≡ "")
    × (u.force_query ≡ false)
    × (env.contains value "#" ≡ false)
    × (u.fragment ≡ "")
    × (u.raw_fragment ≡ "")

module _ (env : Environment) (value : String) where
  Origin-sound : (u : Url) → is_origin env value u ≡ true → Origin env value u
  Origin-sound u e = ground (
    arith,
    eq_iff u.scheme "http",
    eq_iff u.scheme "https",
    eq_iff u.host "",
    eq_iff u.path "",
    eq_iff u.raw_path "",
    eq_iff u.raw_query "",
    eq_iff u.fragment "",
    eq_iff u.raw_fragment "",
  )

  Origin-complete : (u : Url) → Origin env value u → is_origin env value u ≡ true
  Origin-complete u
        (scheme, hosted, whole, user, path, raw_path, query, forced, mark, frag, raw_frag) =
      rw (text_ne hosted, whole, user, path, raw_path, query, forced, mark, frag, raw_frag)
        (ground (arith, eq_iff u.scheme "http", eq_iff u.scheme "https"))

  pub IsOrigin-iff : (validate_router_url env value ≡ ok tt) ↔ IsOrigin env value
  unfolding validate_router_url
  IsOrigin-iff = (
    λ e. or_fail_then (env.parse_url value) _ _ e λ u parsed e.
        guard_then (is_origin env value u) _ _ e λ facts e.
          guard_then (u.port == "" || is_port env (env.parse_int u.port)) _ _ e λ port e.
            let o = Origin-sound u facts in
            record {
              url = u;
              parsed = parsed;
              scheme = o.0;
              hosted = o.1;
              whole_port = o.2;
              no_user = o.3;
              no_path = o.4;
              no_raw_path = o.5;
              no_query = o.6;
              unforced = o.7;
              no_mark = o.8;
              no_fragment = o.9;
              no_raw_fragment = o.10;
              port = IsPort-sound env u.port (env.parse_int u.port) port;
              named =
                  ground (arith, eq_iff u.host_name "", guard-eq-ok (not (u.host_name == "")) _ e);
            },
    λ o.
        let facts : is_origin env value o.url ≡ true = Origin-complete o.url (
          o.scheme, o.hosted, o.whole_port, o.no_user, o.no_path, o.no_raw_path, o.no_query,
          o.unforced, o.no_mark, o.no_fragment, o.no_raw_fragment,
        ) in
        rw (o.parsed, facts, IsPort-complete env o.url.port (env.parse_int o.url.port) o.port)
          (rw (text_ne o.named) refl),
  )
