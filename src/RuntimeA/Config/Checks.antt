-- ===== src/RuntimeA/Config/Checks.antt =====
-- What each check of runtime-a/config.go accepts.
use ne_kiro_samples.Base.{
  String, ℕ, true, false, not, ◌==◌, ◌≡◌, ◌≢◌, ◌≤◌, ◌⊎◌, ◌↔◌, inl, inr, refl, sym, ap, ◌∙◌, some,
  ok, Outcome, err, panic, arith, eq_iff, text_ne, bind_then, subst, ok_inj, Bool-cases, guard_then,
  or_fail_then, guard-eq-ok,
}
use ne_kiro_samples.Identifier.{is_digit, all_characters, is_identifier}
use ne_kiro_samples.Settings.{Lookup, Environment, Url}
use ne_kiro_samples.Settings.Valid.{IsText, IsName, IsLimit}
use ne_kiro_samples.RuntimeA.Config.{
  validate_required_value, validate_identifier_value, required_value, required_limit, within_limits,
  validate_router_url, is_origin, is_port, is_port_text, parse_port, required_identifier,
  validate_listen_address, host_port, port_of_address,
}
use ne_kiro_samples.RuntimeA.Config.Loaded.{required_value-eq-ok, required_identifier_valid}
use ne_kiro_samples.RuntimeA.Config.Bounds.{
  IsAddress, host_port-eq-ok, port_of_address-eq-ok, parse_port-eq-ok, is_port-bounds,
  validate_listen_address-IsAddress, within, identifier_valid,
}

module _ (env : Environment) where
  pub IsText-iff :
      (name value : String) → (validate_required_value env name value ≡ ok tt) ↔ IsText env value
  unfolding validate_required_value
  IsText-iff name value = (
    λ e. guard_then (not (value == "")) _ _ e λ filled e. record {
      filled = ground (arith, eq_iff value "");
      trimmed = (eq_iff (env.trim_space value) value).0 (guard-eq-ok _ _ e);
    },
    λ t. rw (text_ne t.filled, (eq_iff (env.trim_space value) value).1 t.trimmed) refl,
  )

  pub name_safe :
      (name value : String)
      → is_identifier value ≡ true
      → validate_identifier_value env name value ≡ ok tt
  unfolding validate_identifier_value
  name_safe name value safe = rw safe refl

  pub IsName-iff :
      (lookup : Lookup) (name value : String)
      → (required_identifier env lookup name ≡ ok value)
        ↔ ((lookup name ≡ some value) × IsName env value)
  unfolding required_identifier
  IsName-iff lookup name value = (
    λ e. bind_then (required_value env lookup name) _ e λ found read e.
        bind_then (validate_identifier_value env name found) _ e λ _ safe e.
          let (there, text) = required_value-eq-ok env lookup name read in
          subst (λ v. (lookup name ≡ some v) × IsName env v) (ok_inj e)
            (
              there,
              record {
                text = (IsText-iff name found).0 text;
                safe = identifier_valid env name found safe;
              },
            ),
    λ (there, n).
        required_identifier_valid env lookup name value there ((IsText-iff name value).1 n.text)
          (name_safe name value n.safe),
  )

  pub within_from :
      (n : ℕ) → env.limit_minimum ≤ n → n ≤ env.limit_maximum → within_limits env n ≡ true
  within_from n low high = ground arith

  pub IsLimit-iff :
      (lookup : Lookup) (name : String) (n : ℕ)
      → (required_limit env lookup name ≡ ok n) ↔ IsLimit env lookup name n
  unfolding required_limit required_value
  IsLimit-iff lookup name n = (
    λ e. bind_then (required_value env lookup name) _ e λ digits read e.
        or_fail_then (lookup name) _ _ read λ found there r.
          bind_then (validate_required_value env name found) _ r λ _ text r.
            guard_then (all_characters is_digit digits) _ _ e λ only_digits e.
              or_fail_then (env.parse_int digits) _ _ e λ number parsed e.
                guard_then (within_limits env number) _ _ e λ fits e.
                  let (low, high) = within env number fits in
                  subst (IsLimit env lookup name) (ok_inj e) (record {
                    digits = digits;
                    there = there ∙ ap some (ok_inj r);
                    text = subst (IsText env) (ok_inj r) ((IsText-iff name found).0 text);
                    only_digits = only_digits;
                    parsed = parsed;
                    from_minimum = low;
                    to_maximum = high;
                  }),
    λ l.
        rw (l.there, (IsText-iff name l.digits).1 l.text)
          (rw (l.only_digits, l.parsed, within_from n l.from_minimum l.to_maximum) refl),
  )

-- The text of a port: none, or digits for a number from 1 through 65535.
abbrev pub IsPort : Environment → String → Type 0
IsPort env text =
    (text ≡ "")
    ⊎ ((n : ℕ) × (all_characters is_digit text ≡ true)
        × (env.parse_int text ≡ some n)
        × (1 ≤ n)
        × (n ≤ 65535))

-- An http or https URL of a host and no more than a port.
pub record IsOrigin (env : Environment) (value : String) : Type 0 where
  pub url : Url
  pub parsed : env.parse_url value ≡ some url
  pub scheme : (url.scheme ≡ "http") ⊎ (url.scheme ≡ "https")
  pub hosted : url.host ≢ ""
  pub no_user : url.has_user ≡ false
  pub no_query : url.raw_query ≡ ""
  pub unforced : url.force_query ≡ false
  pub no_fragment : url.fragment ≡ ""
  pub no_mark : env.contains value "#" ≡ false
  pub no_path : url.path ≡ ""
  pub named : url.host_name ≢ ""
  pub port : IsPort env url.port
  pub whole_port : env.has_suffix url.host ":" ≡ false

module _ (env : Environment) where
  parse_port_lem :
      (text : String) (n : ℕ)
      → text ≢ ""
      → all_characters is_digit text ≡ true
      → env.parse_int text ≡ some n
      → parse_port env text ≡ ok n
  unfolding parse_port
  parse_port_lem text n given digits parsed = rw (text_ne given, digits, parsed) refl

  port_bounds : (n : ℕ) → 1 ≤ n → n ≤ 65535 → is_port n ≡ true
  port_bounds n low high = ground arith

  IsPort-sound :
      (text : String) (o : Outcome ℕ)
      → parse_port env text ≡ o
      → is_port_text text o ≡ true
      → IsPort env text
  IsPort-sound text (ok n) read e = elim (Bool-cases (text == "")) [
    | inl empty ↦ inl ((eq_iff text "").0 empty)
    | inr other ↦
        let (digits, parsed) = parse_port-eq-ok env text read in
        let (low, high) = is_port-bounds env n (ground arith) in inr (n, digits, parsed, low, high)
  ]
  IsPort-sound text (err x) read e = inl ((eq_iff text "").0 e)
  IsPort-sound text (panic m) read e = inl ((eq_iff text "").0 e)

  no_port : (text : String) (o : Outcome ℕ) → (text == "") ≡ true → is_port_text text o ≡ true
  no_port text (ok n) e = rw e refl
  no_port text (err x) e = e
  no_port text (panic m) e = e

  IsPort-complete :
      (text : String) → IsPort env text → is_port_text text (parse_port env text) ≡ true
  IsPort-complete text (inl empty) = no_port text (parse_port env text) ((eq_iff text "").1 empty)
  IsPort-complete text (inr (n, digits, parsed, low, high)) = elim (Bool-cases (text == "")) [
    | inl empty ↦ no_port text (parse_port env text) empty
    | inr other ↦
        rw
          (
            parse_port_lem text n (λ e. ground (arith, eq_iff text "")) digits parsed,
            port_bounds n low high,
            other,
          )
          refl
  ]

  parse_port-filled : (text : String) {n : ℕ} → parse_port env text ≡ ok n → text ≢ ""
  unfolding parse_port
  parse_port-filled text e =
      guard_then (not (text == "")) _ _ e λ filled e. ground (arith, eq_iff text "")

  port_given :
      (address : String) (a : IsAddress env address)
      → validate_listen_address env address ≡ ok tt
      → a.port_text ≢ ""
  unfolding validate_listen_address
  port_given address a e = bind_then (host_port (env.split_host_port address)) _ e λ parts split e.
      bind_then (port_of_address (parse_port env parts.1)) _ e λ port read e.
        let there = (host_port-eq-ok (env.split_host_port address) split).0 in
        let same : parts ≡ (a.host, a.port_text) = ok_inj (sym there ∙ a.parts) in
        let filled =
          parse_port-filled parts.1 (port_of_address-eq-ok (parse_port env parts.1) read) in
        λ empty. filled (ap (λ p. p.1) same ∙ empty)

  pub IsAddress-iff :
      (address : String)
      → (validate_listen_address env address ≡ ok tt)
        ↔ ((a : IsAddress env address) × (a.port_text ≢ ""))
  unfolding validate_listen_address
  IsAddress-iff address = (
    λ e. let a = validate_listen_address-IsAddress env address e in (a, port_given address a e),
    λ (a, given). rw (a.parts) (
        rw (text_ne a.named) (
          rw
            (
              parse_port_lem a.port_text a.port given a.digits a.parsed,
              port_bounds a.port a.from_one a.in_range,
            )
            refl)),
  )

abbrev Origin : Environment → String → Url → Type 0
Origin env value u =
    (u.host ≢ "")
    × ((u.scheme ≡ "http") ⊎ (u.scheme ≡ "https"))
    × (u.has_user ≡ false)
    × (u.raw_query ≡ "")
    × (u.force_query ≡ false)
    × (u.fragment ≡ "")
    × (env.contains value "#" ≡ false)
    × (u.path ≡ "")

module _ (env : Environment) (value : String) where
  Origin-sound : (u : Url) → is_origin env value u ≡ true → Origin env value u
  Origin-sound u e = ground (
    arith,
    eq_iff u.scheme "http",
    eq_iff u.scheme "https",
    eq_iff u.host "",
    eq_iff u.path "",
    eq_iff u.raw_query "",
    eq_iff u.fragment "",
  )

  Origin-complete : (u : Url) → Origin env value u → is_origin env value u ≡ true
  Origin-complete u (hosted, scheme, user, query, forced, frag, mark, path) =
      rw (text_ne hosted, user, query, forced, frag, mark, path)
        (ground (arith, eq_iff u.scheme "http", eq_iff u.scheme "https"))

  pub IsOrigin-iff : (validate_router_url env value ≡ ok tt) ↔ IsOrigin env value
  unfolding validate_router_url
  IsOrigin-iff = (
    λ e. or_fail_then (env.parse_url value) _ _ e λ u parsed e.
        guard_then (is_origin env value u) _ _ e λ facts e.
          guard_then (not (u.host_name == "")) _ _ e λ named e.
            guard_then (is_port_text u.port (parse_port env u.port)) _ _ e λ port e.
              let o = Origin-sound u facts in
              record {
                url = u;
                parsed = parsed;
                scheme = o.1;
                hosted = o.0;
                no_user = o.2;
                no_query = o.3;
                unforced = o.4;
                no_fragment = o.5;
                no_mark = o.6;
                no_path = o.7;
                named = ground (arith, eq_iff u.host_name "");
                port = IsPort-sound env u.port (parse_port env u.port) refl port;
                whole_port = ground (arith, guard-eq-ok (not (env.has_suffix u.host ":")) _ e);
              },
    λ o.
        let facts : is_origin env value o.url ≡ true = Origin-complete o.url (
          o.hosted, o.scheme, o.no_user, o.no_query, o.unforced, o.no_fragment, o.no_mark,
          o.no_path,
        ) in
        rw (o.parsed, facts, text_ne o.named)
          (rw (IsPort-complete env o.url.port o.port) (rw o.whole_port refl)),
  )
