-- ===== src/Common/Counting.antt =====
-- How often a number stands in a list.
use Prim.Native.Nat.{ℕ, ◌+◌}
use mathlib.Core.Path.{◌≡◌}
use mathlib.Core.List.{List, [], ◌∷◌, ◌++◌}
use native.Mathlib.Omega.{arith}
use aether_mo_e.Common.Tests.{◌==◌, if◌then◌else◌}

abbrev pub count : ℕ → List ℕ → ℕ
count b [] = 0
count b (c ∷ cs) = (if b == c then 1 else 0) + count b cs

pub count-append : (b : ℕ) (cs ds : List ℕ) → count b (cs ++ ds) ≡ count b cs + count b ds
count-append b [] ds = omega arith
count-append b (c ∷ cs) ds = omega (arith, count-append b cs ds)
