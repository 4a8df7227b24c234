-- ===== src/PageTable/Bounds.antt =====
-- The block count of page_table.hpp, its overflow, and the padding in a sequence's last block.
use native.Mathlib.Decide.{dec_le}
use native.Mathlib.Nat.{le_trans}
use aether_mo_e.Common.{
  ap, ◌⊎◌, inl, inr, ℕ, max, ◌+◌, ◌-◌, ◌*◌, ◌/◌, ◌%◌, ◌^◌, ◌≤◌, ◌<◌, ◌≡◌, true, arith, length,
}
use aether_mo_e.PageTable.{Allocator, blocks_needed_for, blocks_of, ensure_capacity}
use aether_mo_e.PageTable.Capacity.{length-ensure_capacity}

-- Rounding up: the quotient covers the tokens with less than a block to spare.
div_up : (n b : ℕ) → 0 < b → (n ≤ (n + b - 1) / b * b) × ((n + b - 1) / b * b < n + b)
div_up n b h = omega arith

pub blocks_needed_bounds :
    (a : Allocator) (n : ℕ)
    → 0 < a.block_size
    → n + a.block_size ≤ 2 ^ 64
    → let slots = blocks_needed_for a n * a.block_size in (n ≤ slots) × (slots < n + a.block_size)
unfolding blocks_needed_for
blocks_needed_bounds a n h fits = rw no_wrap (div_up n a.block_size h)
  where
    no_wrap : (n + a.block_size + (2 ^ 64 - 1)) % 2 ^ 64 ≡ n + a.block_size - 1
    no_wrap = omega arith

scale : (m n k : ℕ) → m ≤ n → m * k ≤ n * k
scale m n k h = grind arith

max_scale : (m n k : ℕ) → (max m n * k ≡ m * k) ⊎ (max m n * k ≡ n * k)
max_scale m n k = elim (dec_le n m) [
  | yes h ↦ inl (ap (λ t. t * k) (omega arith))
  | no h ↦ inr (ap (λ t. t * k) (omega arith))
]

-- When ensure_capacity succeeds, with a block size above 0 that makes no sum wrap, the sequence has
-- room for its tokens; and its blocks hold either no more than before, or less than one block more
-- than the tokens need.
pub ensure_capacity_slots :
    (a : Allocator) (k n : ℕ)
    → 0 < a.block_size
    → n + a.block_size ≤ 2 ^ 64
    → (ensure_capacity a k n).1 ≡ true
    → let slots = length (blocks_of (ensure_capacity a k n).0 k) * a.block_size in
      (n ≤ slots) × (slots < max (length (blocks_of a k) * a.block_size + 1) (n + a.block_size))
ensure_capacity_slots a k n h fits done =
    let owned : ℕ = length (blocks_of a k) in
    let needed : ℕ = blocks_needed_for a n in
    let bounds = blocks_needed_bounds a n h fits in
    rw (length-ensure_capacity a k n done) (
      le_trans bounds.0 (scale needed (max owned needed) a.block_size (omega arith)),
      omega (arith, max_scale owned needed a.block_size, bounds),
    )
