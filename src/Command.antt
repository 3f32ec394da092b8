-- ===== src/Command.antt =====
-- What the commands of both agents share (runtime-a/cmd/runtime-a/main.go and
-- runtime-b/cmd/runtime-b/main.go): the registration, the time for the shutdown, and the SDK's host.
pub mod Examples
use ne_kiro_samples.Base.{
  ℕ, String, Bool, true, false, ltb, ◌<◌, ◌≡◌, refl, sym, ap, ◌∙◌, subst, inl, inr, Bool-cases,
  ok_inj, arith, Option, none, some, Outcome, ok, err, panic, Error, if◌then◌else◌, ◌>>=◌,
}
use ne_kiro_samples.Settings.{Lookup}
use ne_kiro_samples.Web.{HttpHandler, Readiness, static, registered}

-- The stages of agenthost.Wrap.
pub data Stage : Type 0 where
  in_config in_registration in_handler : Stage

-- What is read of a registrationnacos.Config: its mode, and its request timeout in nanoseconds, which is
-- 0 here when it is not above 0; `rest` stands for its other settings.
pub record RegistrationConfig : Type 0 where
  pub disabled : Bool
  pub request_timeout : ℕ
  pub rest : ℕ

pub data Registration : Type 0 where
  registration : RegistrationConfig → Registration

-- agenthost.Config; the signals, which are constants, are left out.
pub record HostConfig : Type 0 where
  pub address : String
  pub application : HttpHandler
  pub registration : Option Registration
  pub shutdown_timeout : ℕ

-- The functions of the SDK: agenthost.Wrap, LoadConfig and New of registrationnacos, and agenthost.New,
-- whose result is what the host's Run ends in.
pub record Host : Type 0 where
  pub wrap : Stage → String → Error → Error
  pub load_registration :
      Lookup → (prefix agent_id instance_id : String) → Outcome RegistrationConfig
  pub new_registration : RegistrationConfig → Outcome Registration
  pub new_host : HostConfig → Outcome (Outcome (Unit {0}))

abbrev pub at_stage {ℓ} : {A : Type ℓ} → Host → Stage → String → Outcome A → Outcome A
at_stage host stage text (ok a) = ok a
at_stage host stage text (err e) = err (host.wrap stage text e)
at_stage host stage text (panic m) = panic m

abbrev pub with_readiness : Outcome Registration → Outcome (Option Registration × Readiness)
with_readiness (ok r) = ok (some r, registered)
with_readiness (err e) = err e
with_readiness (panic m) = panic m

unfoldable pub new_runtime_registration :
    Host → RegistrationConfig → Outcome (Option Registration × Readiness)
new_runtime_registration host config =
    if config.disabled
    then ok (none, static true)
    else with_readiness (host.new_registration config)

-- Five seconds, unless the registration has a timeout.
abbrev pub shutdown_timeout_of : RegistrationConfig → ℕ
shutdown_timeout_of config =
    if ltb 0 config.request_timeout then config.request_timeout else 5000000000

abbrev pub hosted : Host → Outcome HostConfig → Outcome (Unit {0})
hosted host prepared = do config ← prepared; finished ← host.new_host config; finished

pub at_stage-eq-ok {ℓ} :
    {A : Type ℓ} (host : Host) (stage : Stage) (text : String) (o : Outcome A) {a : A}
    → at_stage host stage text o ≡ ok a
    → o ≡ ok a
at_stage-eq-ok host stage text (ok given) e = e
at_stage-eq-ok host stage text (err x) e = cc
at_stage-eq-ok host stage text (panic m) e = cc

pub shutdown_timeout_of-positive : (config : RegistrationConfig) → 0 < shutdown_timeout_of config
shutdown_timeout_of-positive config = ground arith

-- Without a registration the agent is always ready; with one its readiness is the registration's.
abbrev pub IsRegistered : Host → RegistrationConfig → Option Registration × Readiness → Type 0
IsRegistered host config (none, readiness) = (config.disabled ≡ true) × (readiness ≡ static true)
IsRegistered host config (some r, readiness) =
    (config.disabled ≡ false) × (host.new_registration config ≡ ok r) × (readiness ≡ registered)

pub new_runtime_registration-IsRegistered :
    (host : Host) (config : RegistrationConfig) (made : Option Registration × Readiness)
    → new_runtime_registration host config ≡ ok made
    → IsRegistered host config made
unfolding new_runtime_registration
new_runtime_registration-IsRegistered host config made e = elim (Bool-cases config.disabled) [
  | inl off ↦ subst (IsRegistered host config) (ok_inj (sym (ap branch off) ∙ e)) (off, refl)
  | inr on ↦ of_new on (host.new_registration config) refl (sym (ap branch on) ∙ e)
]
  where
    branch : Bool → Outcome (Option Registration × Readiness)
    branch b = if b then ok (none, static true) else with_readiness (host.new_registration config)

    of_new :
        config.disabled ≡ false
        → (o : Outcome Registration) → host.new_registration config ≡ o
        → with_readiness o ≡ ok made
        → IsRegistered host config made
    of_new on (ok r) new e = subst (IsRegistered host config) (ok_inj e) (on, new, refl)
    of_new on (err x) new e = cc
    of_new on (panic m) new e = cc
