-- ===== src/Prelude/Dict.antt =====
-- A Go map as an association list, for keys with a test of equality.
use mathlib.Core.Path.{◌≡◌, refl}
use mathlib.Core.Logic.{◌↔◌}
use mathlib.Core.Bool.{Bool, true}
use mathlib.Core.Option.{Option, none, some}
use mathlib.Core.List.{List, [], ◌∷◌}
use native.Mathlib.Omega.{arith}
use vss.Prelude.Tests.{if◌then◌else◌}

module _ {K V : Type 0} (eq : K → K → Bool) where
  -- m[k]
  unfoldable pub find : K → List (K × V) → Option V
  find k [] = none
  find k ((j, v) ∷ m) = if eq j k then some v else find k m

  -- m[k] = v
  unfoldable pub store : K → V → List (K × V) → List (K × V)
  store k v [] = (k, v) ∷ []
  store k v ((j, w) ∷ m) = if eq j k then (k, v) ∷ m else (j, w) ∷ store k v m

  -- delete(m, k)
  unfoldable pub discard : K → List (K × V) → List (K × V)
  discard k [] = []
  discard k ((j, w) ∷ m) = let rest = discard k m in if eq j k then rest else (j, w) ∷ rest

  module _ (eq_iff : (a b : K) → (eq a b ≡ true) ↔ (a ≡ b)) where
    pub find-store :
        (k j : K) (v : V) (m : List (K × V))
        → find j (store k v m) ≡ (if eq k j then some v else find j m)
    unfolding find store
    find-store k j v [] = refl
    find-store k j v ((i, w) ∷ m) =
        ground (arith, eq_iff k j, eq_iff i k, eq_iff i j, find-store k j v m)

    pub find-discard :
        (k j : K) (m : List (K × V)) → find j (discard k m) ≡ (if eq k j then none else find j m)
    unfolding find discard
    find-discard k j [] = ground arith
    find-discard k j ((i, w) ∷ m) =
        ground (arith, eq_iff k j, eq_iff i k, eq_iff i j, find-discard k j m)
