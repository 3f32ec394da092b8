-- ===== src/RuntimeB/Server/Listen.antt =====
-- The listen address of Runtime B.
use ne_kiro_samples.Base.{
  ℕ, String, true, not, ◌≤◌, ◌≡◌, ◌≢◌, ◌↔◌, refl, ap, ◌∙◌, ◌==◌, ◌&&◌, Option, none, some, Outcome,
  ok, err, panic, guard_then, or_fail_then, bind_then, ok_inj, arith, eq_iff, text_ne,
}
use ne_kiro_samples.Settings.{Lookup, Environment}
use ne_kiro_samples.RuntimeB.Server.{split_address, port_in_range, listen_address_from_environment}

-- The variable's text without surrounding whitespace, of a host and a port from 1 through 65535.
pub record Listens (env : Environment) (lookup : Lookup) (address : String) : Type 0 where
  pub given : lookup "RUNTIME_B_LISTEN_ADDR" ≡ some address
  pub filled : address ≢ ""
  pub trimmed : env.trim_space address ≡ address
  pub host : String
  pub port_text : String
  pub parts : env.split_host_port address ≡ ok (host, port_text)
  pub named : host ≢ ""
  pub port : ℕ
  pub parsed : env.parse_int port_text ≡ some port
  pub from_one : 1 ≤ port
  pub in_range : port ≤ 65535

split_address-eq-ok :
    (o : Outcome (String × String)) {parts : String × String}
    → split_address o ≡ ok parts
    → o ≡ ok parts
split_address-eq-ok (ok given) e = e
split_address-eq-ok (err x) e = cc
split_address-eq-ok (panic m) e = cc

port_in_range-eq :
    (o : Option ℕ)
    → port_in_range o ≡ true
    → (port : ℕ) × (o ≡ some port) × (1 ≤ port) × (port ≤ 65535)
port_in_range-eq none e = cc
port_in_range-eq (some port) e = (port, refl, ground arith, ground arith)

module _ (env : Environment) (lookup : Lookup) (address : String) where
  listen_address_sound :
      listen_address_from_environment env lookup ≡ ok address → Listens env lookup address
  unfolding listen_address_from_environment
  listen_address_sound e = or_fail_then (lookup "RUNTIME_B_LISTEN_ADDR") _ _ e λ found there e.
      guard_then (not (found == "") && env.trim_space found == found) _ _ e λ whole e.
        bind_then (split_address (env.split_host_port found)) _ e λ parts split e.
          guard_then (not (parts.0 == "")) _ _ e λ named e.
            guard_then (port_in_range (env.parse_int parts.1)) _ _ e λ ranged e.
              let same : found ≡ address = ok_inj e in
              let (port, parsed, low, high) = port_in_range-eq (env.parse_int parts.1) ranged in
              record {
                given = there ∙ ap some same;
                filled = λ empty. ground (arith, eq_iff found "", same, empty);
                trimmed = rw (← same) ground (arith, eq_iff (env.trim_space found) found);
                host = parts.0;
                port_text = parts.1;
                parts = rw (← same) (split_address-eq-ok (env.split_host_port found) split);
                named = λ empty. ground (arith, eq_iff parts.0 "");
                port = port;
                parsed = parsed;
                from_one = low;
                in_range = high;
              }

  listen_address_complete :
      Listens env lookup address → listen_address_from_environment env lookup ≡ ok address
  unfolding listen_address_from_environment
  listen_address_complete l =
      rw (l.given, text_ne l.filled, (eq_iff (env.trim_space address) address).1 l.trimmed)
        (rw (l.parts, text_ne l.named) (rw (l.parsed, ranged l.port l.from_one l.in_range) refl))
    where
      ranged : (port : ℕ) → 1 ≤ port → port ≤ 65535 → port_in_range (some port) ≡ true
      ranged port low high = ground arith

  -- ListenAddressFromEnvironment returns an address exactly when the variable holds it, without
  -- surrounding whitespace, and it has a host and a port from 1 through 65535.
  pub listen_address_iff :
      (listen_address_from_environment env lookup ≡ ok address) ↔ Listens env lookup address
  listen_address_iff = (listen_address_sound, listen_address_complete)
