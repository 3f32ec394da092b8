-- ===== src/Base/Errors.antt =====
-- What a Go call ends in: a value, an `error` value, or a panic; and the errors of the samples.
-- `router_error` stands for the SDK's `*RouterError`, of which the samples read the code; its text
-- is what the error prints beside.
use Prim.Native.String.{String}
use mathlib.Core.Path.{◌≡◌, refl, ap, sym, ◌∙◌}
use mathlib.Core.Bool.{Bool, true, false}
use mathlib.Core.Option.{Option, none, some}

pub data Error : Type 0 where
  plain : String → Error  -- errors.New, and fmt.Errorf without %w
  invalid_params : String → Error  -- wraps a2a.ErrInvalidParams
  task_not_found : Error  -- a2a.ErrTaskNotFound
  task_not_cancelable : Error  -- a2a.ErrTaskNotCancelable
  unsupported_operation : Error  -- a2a.ErrUnsupportedOperation
  router_error : (code text : String) → Error
  wrapped : String → Error → Error  -- fmt.Errorf with %w

-- errors.As with a *RouterError target: the code of the first one in the chain.
abbrev pub as_router_error : Error → Option String
as_router_error (router_error code text) = some code
as_router_error (wrapped prefix inner) = as_router_error inner
as_router_error (plain message) = none
as_router_error (invalid_params message) = none
as_router_error task_not_found = none
as_router_error task_not_cancelable = none
as_router_error unsupported_operation = none

pub data Outcome {ℓ} (A : Type ℓ) : Type ℓ where
  ok : A → Outcome A
  err : Error → Outcome A
  panic : String → Outcome A

infixl 5 ◌>>=◌ ◌>>◌
abbrev pub ◌>>=◌ {ℓ κ} : {A : Type ℓ} {B : Type κ} → Outcome A → (A → Outcome B) → Outcome B
ok a >>= f = f a
err e >>= f = err e
panic m >>= f = panic m

abbrev pub ◌>>◌ {ℓ} : {B : Type ℓ} → Outcome (Unit {0}) → Outcome B → Outcome B
m >> k = m >>= λ _. k

-- `if !test { return error }`.
abbrev pub guard : Bool → Error → Outcome (Unit {0})
guard true e = ok tt
guard false e = err e

abbrev pub or_fail {ℓ} : {A : Type ℓ} → Option A → Error → Outcome A
or_fail none e = err e
or_fail (some a) e = ok a

pub ok_inj {ℓ} : {A : Type ℓ} {a b : A} → ◌≡◌ {A = Outcome A} (ok a) (ok b) → a ≡ b
ok_inj e = cc

pub err_inj {ℓ} : {A : Type ℓ} {a b : Error} → ◌≡◌ {A = Outcome A} (err a) (err b) → a ≡ b
err_inj e = cc

-- What the steps of a successful run gave.
pub >>=-eq-ok {ℓ κ} :
    {A : Type ℓ} {B : Type κ} (first : Outcome A) (next : A → Outcome B) {last : B}
    → first >>= next ≡ ok last
    → (value : A) × (first ≡ ok value) × (next value ≡ ok last)
>>=-eq-ok (panic text) next run = cc
>>=-eq-ok (err failure) next run = cc
>>=-eq-ok (ok value) next run = (value, refl, run)

-- The same in the form of a rule: a proof of R may use what the steps of a successful run gave.
module _ {ℓ μ} {B : Type ℓ} {R : Type μ} where
  pub bind_then {κ} :
      {A : Type κ} (m : Outcome A) (f : A → Outcome B) {x : B}
      → (m >>= f) ≡ ok x
      → ((a : A) → m ≡ ok a → f a ≡ ok x → R)
      → R
  bind_then (ok a) f h k = k a refl h
  bind_then (err e) f h k = cc
  bind_then (panic m) f h k = cc

  pub guard_then :
      (b : Bool) (e : Error) (f : Unit {0} → Outcome B) {x : B}
      → (guard b e >>= f) ≡ ok x
      → (b ≡ true → f tt ≡ ok x → R)
      → R
  guard_then true e f h k = k refl h
  guard_then false e f h k = cc

  pub or_fail_then {κ} :
      {A : Type κ} (o : Option A) (e : Error) (f : A → Outcome B) {x : B}
      → (or_fail o e >>= f) ≡ ok x
      → ((a : A) → o ≡ some a → f a ≡ ok x → R)
      → R
  or_fail_then none e f h k = cc
  or_fail_then (some a) e f h k = k a refl h

-- What the steps of a failed run gave: the step that failed with the error, or the rest of the run.
module _ {ℓ μ} {B : Type ℓ} {R : Type μ} where
  pub bind_fails {κ} :
      {A : Type κ} (m : Outcome A) (f : A → Outcome B) {e : Error}
      → (m >>= f) ≡ err e
      → (m ≡ err e → R)
      → ((a : A) → m ≡ ok a → f a ≡ err e → R)
      → R
  bind_fails (ok a) f h stop next = next a refl h
  bind_fails (err e) f h stop next = stop (ap err (err_inj h))
  bind_fails (panic m) f h stop next = cc

  pub guard_fails :
      (b : Bool) (failed : Error) (f : Unit {0} → Outcome B) {e : Error}
      → (guard b failed >>= f) ≡ err e
      → (b ≡ false → failed ≡ e → R)
      → (b ≡ true → f tt ≡ err e → R)
      → R
  guard_fails true failed f h stop next = next refl h
  guard_fails false failed f h stop next = stop refl (err_inj h)

  pub or_fail_fails {κ} :
      {A : Type κ} (o : Option A) (failed : Error) (f : A → Outcome B) {e : Error}
      → (or_fail o failed >>= f) ≡ err e
      → (o ≡ none → failed ≡ e → R)
      → ((a : A) → o ≡ some a → f a ≡ err e → R)
      → R
  or_fail_fails none failed f h stop next = stop refl (err_inj h)
  or_fail_fails (some a) failed f h stop next = next a refl h

pub or_fail-eq-err {ℓ} :
    {A : Type ℓ} (o : Option A) (failed : Error) {e : Error} → or_fail o failed ≡ err e → failed ≡ e
or_fail-eq-err none failed h = err_inj h
or_fail-eq-err (some a) failed h = cc

-- A value that is read and then checked.
abbrev pub checked {ℓ} : {A : Type ℓ} → Outcome A → (A → Outcome (Unit {0})) → Outcome A
checked read check = do value ← read; check value; ok value

passed {ℓ} :
    {A : Type ℓ} (test : Outcome (Unit {0})) {value last : A}
    → test >>= (λ _. ok value) ≡ ok last
    → (test ≡ ok tt) × (value ≡ last)
passed (ok tt) e = (refl, cc)
passed (err failure) e = cc
passed (panic text) e = cc

pub checked-eq-ok {ℓ} :
    {A : Type ℓ} (read : Outcome A) (check : A → Outcome (Unit {0})) {last : A}
    → checked read check ≡ ok last
    → (read ≡ ok last) × (check last ≡ ok tt)
checked-eq-ok (ok value) check e =
    let (test, same) = passed (check value) e in (ap ok same, ap check (sym same) ∙ test)
checked-eq-ok (err failure) check e = cc
checked-eq-ok (panic text) check e = cc

pub checked_ok {ℓ} :
    {A : Type ℓ} (read : Outcome A) (check : A → Outcome (Unit {0})) {last : A}
    → read ≡ ok last
    → check last ≡ ok tt
    → checked read check ≡ ok last
checked_ok read check e test = rw e (rw test refl)

pub or_fail-eq-ok {ℓ} :
    {A : Type ℓ} (o : Option A) (e : Error) {last : A} → or_fail o e ≡ ok last → o ≡ some last
or_fail-eq-ok (some a) e h = cc
or_fail-eq-ok none e h = cc

pub guard-eq-ok : (b : Bool) (e : Error) → guard b e ≡ ok tt → b ≡ true
guard-eq-ok true e h = refl
guard-eq-ok false e h = cc
