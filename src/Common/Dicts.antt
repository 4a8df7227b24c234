-- ===== src/Common/Dicts.antt =====
-- Maps with numbers as keys, as association lists.
use Prim.Native.Nat.{ℕ}
use mathlib.Core.Path.{◌≡◌, refl}
use mathlib.Core.Option.{Option, none, some}
use mathlib.Core.List.{List, [], ◌∷◌}
use native.Mathlib.Omega.{arith}
use aether_mo_e.Common.Tests.{◌==◌, if◌then◌else◌}

module _ {ℓ} {V : Type ℓ} where
  unfoldable pub lookup : ℕ → List (ℕ × V) → Option V
  lookup k [] = none
  lookup k ((j, v) ∷ dict) = if j == k then some v else lookup k dict

  -- `map[k] = v`
  unfoldable pub insert : ℕ → V → List (ℕ × V) → List (ℕ × V)
  insert k v [] = (k, v) ∷ []
  insert k v ((j, w) ∷ dict) = if j == k then (k, v) ∷ dict else (j, w) ∷ insert k v dict

  pub lookup-insert :
      (k j : ℕ) (v : V) (dict : List (ℕ × V))
      → lookup j (insert k v dict) ≡ (if k == j then some v else lookup j dict)
  unfolding lookup insert
  lookup-insert k j v [] = refl
  lookup-insert k j v ((i, w) ∷ dict) = ground (arith, lookup-insert k j v dict)
