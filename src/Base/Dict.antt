-- ===== src/Base/Dict.antt =====
-- A Go map with string keys as an association list: an entry in front hides later ones.
use Prim.Native.String.{String}
use mathlib.Core.Path.{◌≡◌, refl}
use mathlib.Core.Option.{Option, none, some}
use mathlib.Core.List.{List, [], ◌∷◌}
use native.Mathlib.Omega.{arith}
use text.Mathlib.Text.{◌==◌}
use text.Mathlib.TextEquality.{eq_iff}
use ne_kiro_samples.Base.Tests.{if◌then◌else◌}

module _ {ℓ} {V : Type ℓ} where
  unfoldable pub lookup : String → List (String × V) → Option V
  lookup wanted [] = none
  lookup wanted ((key, value) ∷ rest) = if key == wanted then some value else lookup wanted rest

  -- m[key] = value
  unfoldable pub insert : (key : String) → V → List (String × V) → List (String × V)
  insert key value [] = (key, value) ∷ []
  insert key value ((old, kept) ∷ rest) =
      let further = insert key value rest in
      if old == key then (key, value) ∷ rest else (old, kept) ∷ further

  -- delete(m, k)
  unfoldable pub remove : String → List (String × V) → List (String × V)
  remove k [] = []
  remove k ((j, v) ∷ m) = let rest = remove k m in if j == k then rest else (j, v) ∷ rest

  pub lookup-insert :
      (key wanted : String) (value : V) (m : List (String × V))
      → lookup wanted (insert key value m) ≡ (if key == wanted then some value else lookup wanted m)
  unfolding lookup insert
  lookup-insert key wanted value [] = refl
  lookup-insert key wanted value ((old, kept) ∷ rest) = ground (
    arith,
    eq_iff old key,
    eq_iff old wanted,
    eq_iff key wanted,
    lookup-insert key wanted value rest,
  )

  pub lookup-remove :
      (k j : String) (m : List (String × V))
      → lookup j (remove k m) ≡ (if k == j then none else lookup j m)
  unfolding lookup remove
  lookup-remove k j [] = ground arith
  lookup-remove k j ((i, w) ∷ m) =
      ground (arith, eq_iff k j, eq_iff i k, eq_iff i j, lookup-remove k j m)
