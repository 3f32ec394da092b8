-- ===== src/Base/Lists.antt =====
-- Lists measured and indexed by native numbers, under the library's names.
use Prim.Native.Nat.{ℕ, zero, suc, ◌+◌, ◌-◌, ◌<◌}
use mathlib.Core.Path.{◌≡◌, refl, ap}
use mathlib.Core.Logic.{◌≢◌, ◌⊎◌, inl, inr}
use mathlib.Core.List.{List, [], ◌∷◌, ◌++◌}
use mathlib.Core.Option.{Option, none, some}
use native.Mathlib.Omega.{arith}

module _ {ℓ} {A : Type ℓ} where
  abbrev pub length : List A → ℕ
  length [] = 0
  length (x ∷ xs) = suc (length xs)

  abbrev pub get_elem? : List A → ℕ → Option A
  get_elem? [] i = none
  get_elem? (x ∷ xs) zero = some x
  get_elem? (x ∷ xs) (suc i) = get_elem? xs i

  -- A write out of bounds changes nothing.
  abbrev pub set : List A → ℕ → A → List A
  set [] i v = []
  set (x ∷ xs) zero v = v ∷ xs
  set (x ∷ xs) (suc i) v = x ∷ set xs i v

  abbrev pub drop : ℕ → List A → List A
  drop zero xs = xs
  drop (suc n) [] = []
  drop (suc n) (x ∷ xs) = drop n xs

  abbrev pub take : ℕ → List A → List A
  take zero xs = []
  take (suc n) [] = []
  take (suc n) (x ∷ xs) = x ∷ take n xs

  pub length-append : (xs ys : List A) → length (xs ++ ys) ≡ length xs + length ys
  length-append [] ys = omega arith
  length-append (x ∷ xs) ys = omega (arith, length-append xs ys)

  pub length-drop : (n : ℕ) (xs : List A) → length (drop n xs) ≡ length xs - n
  length-drop zero xs = omega arith
  length-drop (suc n) [] = omega arith
  length-drop (suc n) (x ∷ xs) = omega (arith, length-drop n xs)

  pub get_elem?-append_new : (xs : List A) (a : A) → get_elem? (xs ++ a ∷ []) (length xs) ≡ some a
  get_elem?-append_new [] a = refl
  get_elem?-append_new (x ∷ xs) a = get_elem?-append_new xs a

  pub get_elem?-append_old :
      (xs ys : List A) (i : ℕ) {b : A} → get_elem? xs i ≡ some b → get_elem? (xs ++ ys) i ≡ some b
  get_elem?-append_old [] ys i h = cc
  get_elem?-append_old (x ∷ xs) ys zero h = h
  get_elem?-append_old (x ∷ xs) ys (suc i) h = get_elem?-append_old xs ys i h

  pub get_elem?-lt : (xs : List A) (i : ℕ) {b : A} → get_elem? xs i ≡ some b → i < length xs
  get_elem?-lt [] i h = cc
  get_elem?-lt (x ∷ xs) zero h = omega arith
  get_elem?-lt (x ∷ xs) (suc i) h = omega (arith, get_elem?-lt xs i h)

module _ {ℓ} {A : Type ℓ} where
  pub get_elem?-set_self :
      (xs : List A) (i : ℕ) (v : A) {b : A}
      → get_elem? xs i ≡ some b
      → get_elem? (set xs i v) i ≡ some v
  get_elem?-set_self [] i v h = cc
  get_elem?-set_self (x ∷ xs) zero v h = refl
  get_elem?-set_self (x ∷ xs) (suc i) v h = get_elem?-set_self xs i v h

  pub get_elem?-set_ne :
      (xs : List A) {i j : ℕ} (v : A) → i ≢ j → get_elem? (set xs i v) j ≡ get_elem? xs j
  get_elem?-set_ne [] v h = refl
  get_elem?-set_ne (x ∷ xs) {i = zero} {j = zero} v h = absurd (h refl)
  get_elem?-set_ne (x ∷ xs) {i = zero} {j = suc j} v h = refl
  get_elem?-set_ne (x ∷ xs) {i = suc i} {j = zero} v h = refl
  get_elem?-set_ne (x ∷ xs) {i = suc i} {j = suc j} v h = get_elem?-set_ne xs v (λ e. h (ap suc e))

-- A predicate of every element; it computes to a tuple.
abbrev pub All {ℓ κ} : {A : Type ℓ} → (A → Type κ) → List A → Type κ
All P [] = Unit
All P (x ∷ xs) = P x × All P xs

module _ {ℓ κ} {A : Type ℓ} (P : A → Type κ) where
  pub All-append : (xs ys : List A) → All P xs → All P ys → All P (xs ++ ys)
  All-append [] ys hx hy = hy
  All-append (x ∷ xs) ys hx hy = (hx.0, All-append xs ys hx.1 hy)

  pub All-set : (xs : List A) (i : ℕ) (v : A) → All P xs → P v → All P (set xs i v)
  All-set [] i v h p = h
  All-set (x ∷ xs) zero v h p = (p, h.1)
  All-set (x ∷ xs) (suc i) v h p = (h.0, All-set xs i v h.1 p)

  pub All-get_elem? : (xs : List A) (i : ℕ) {a : A} → All P xs → get_elem? xs i ≡ some a → P a
  All-get_elem? [] i h e = cc
  All-get_elem? (x ∷ xs) zero {a} h e = rw (← some_inj e) h.0
    where
      some_inj : some x ≡ some a → x ≡ a
      some_inj q = cc
  All-get_elem? (x ∷ xs) (suc i) h e = All-get_elem? xs i h.1 e

-- What stands at an index after a write, and after an addition at the end.
module _ {ℓ} {A : Type ℓ} where
  pub get_elem?-set_cases :
      (xs : List A) (i j : ℕ) (v a : A)
      → get_elem? (set xs i v) j ≡ some a
      → ((i ≡ j) × (a ≡ v)) ⊎ ((i ≢ j) × (get_elem? xs j ≡ some a))
  get_elem?-set_cases [] i j v a e = cc
  get_elem?-set_cases (x ∷ xs) zero zero v a e = inl (refl, cc)
  get_elem?-set_cases (x ∷ xs) zero (suc j) v a e = inr (λ q. cc, e)
  get_elem?-set_cases (x ∷ xs) (suc i) zero v a e = inr (λ q. cc, e)
  get_elem?-set_cases (x ∷ xs) (suc i) (suc j) v a e = elim (get_elem?-set_cases xs i j v a e) [
    | inl (q, r) ↦ inl (ap suc q, r)
    | inr (n, r) ↦ inr (λ q. n (omega arith), r)
  ]

  pub get_elem?-append_cases :
      (xs : List A) (v : A) (i : ℕ) (a : A)
      → get_elem? (xs ++ v ∷ []) i ≡ some a
      → (get_elem? xs i ≡ some a) ⊎ ((i ≡ length xs) × (a ≡ v))
  get_elem?-append_cases [] v zero a e = inr (refl, cc)
  get_elem?-append_cases [] v (suc i) a e = cc
  get_elem?-append_cases (x ∷ xs) v zero a e = inl e
  get_elem?-append_cases (x ∷ xs) v (suc i) a e = elim (get_elem?-append_cases xs v i a e) [
    | inl r ↦ inl r
    | inr (q, r) ↦ inr (ap suc q, r)
  ]
