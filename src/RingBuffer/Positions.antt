-- ===== src/RingBuffer/Positions.antt =====
-- Positions and cells: `pos % capacity` tells positions apart that are less than a capacity apart.
use native.Mathlib.Nat.{mod-add-div, add-mod_right}
use native.Mathlib.Decide.{dec_lt}
use aether_mo_e.Common.{ℕ, ◌+◌, ◌/◌, ◌%◌, ◌<◌, ◌≡◌, ◌≢◌, arith}

pub mod-ne : (c p q : ℕ) → p < q → q < p + c → p % c ≢ q % c
mod-ne c p q h k e = elim (dec_lt (p / c) (q / c)) [
  | yes lt ↦ grind (arith, mod-add-div p c, mod-add-div q c)
  | no ge ↦ grind (arith, mod-add-div p c, mod-add-div q c)
]

pub mod_lap : (c p : ℕ) → (p + c) % c ≡ p % c
mod_lap c p = add-mod_right p c
