-- ===== src/PageTable/Capacity.antt =====
-- What ensure_capacity and free_sequence of page_table.hpp promise to the scheduler.
use aether_mo_e.Common.{
  ◌==◌, ℕ, max, sym, ◌∙◌, length-append, length-take, leb→le, ◌+◌, ◌-◌, ◌≤◌, ◌≡◌, ◌≢◌, true, false,
  List, [], ◌++◌, arith, leb, inl, inr, leb→le, if◌then◌else◌, length, count, take, drop,
  append-nil, Option-cases,
}
use aether_mo_e.PageTable.{
  Allocator, find, put_owned, grow_to, blocks_of, blocks_needed_for, ensure_capacity,
  free_block_count, free_sequence,
}
use aether_mo_e.PageTable.Tables.{keyed, find-store, find-erase_self, find-erase_ne}
use aether_mo_e.PageTable.Growth.{
  take_blocks_lem, take_eq_nil, drop_eq_self, length-give_back, count-give_back,
}

blocks_of-put_owned_self :
    (a : Allocator) (k : ℕ) (owned free : List ℕ) → blocks_of (put_owned a k owned free) k ≡ owned
unfolding blocks_of
blocks_of-put_owned_self a k owned free = ground (arith, find-store k k owned a.tables)

blocks_of-put_owned_ne :
    (a : Allocator) (k j : ℕ) (owned free : List ℕ)
    → k ≢ j
    → blocks_of (put_owned a k owned free) j ≡ blocks_of a j
unfolding blocks_of
blocks_of-put_owned_ne a k j owned free h = ground (arith, find-store k j owned a.tables)

-- The outcome of `grow_to` in closed form.
pub grow_to_lem :
    (a : Allocator) (k : ℕ) (owned : List ℕ) (needed : ℕ)
    → let extra = needed - length owned in
      grow_to a k owned needed ≡ (
        if leb needed (length owned + length a.free_blocks)
        then (put_owned a k (owned ++ take extra a.free_blocks) (drop extra a.free_blocks), true)
        else (put_owned a k owned a.free_blocks, false))
unfolding grow_to
grow_to_lem a k owned needed =
    let extra : ℕ = needed - length owned in
    ground (
      arith,
      append-nil owned,
      take_eq_nil extra a.free_blocks,
      drop_eq_self extra a.free_blocks,
      take_blocks_lem extra owned a.free_blocks,
    )

-- ensure_capacity succeeds exactly when the blocks that the sequence has and the free ones are
-- enough. Then the sequence keeps its blocks and gets the missing ones from the top of the free
-- stack, and no more; on failure neither it nor the stack changes.
pub ensure_capacity_lem :
    (a : Allocator) (k n : ℕ)
    → let owned = blocks_of a k in
      let needed = blocks_needed_for a n in
      let extra = needed - length owned in
      let (a', fits) = ensure_capacity a k n in
      (fits ≡ leb needed (length owned + free_block_count a))
      × (blocks_of a' k ≡ (if fits then owned ++ take extra a.free_blocks else owned))
      × (a'.free_blocks ≡ (if fits then drop extra a.free_blocks else a.free_blocks))
unfolding ensure_capacity free_block_count
ensure_capacity_lem a k n =
    let owned : List ℕ = blocks_of a k in
    let extra : ℕ = blocks_needed_for a n - length owned in
    ground (
      arith,
      grow_to_lem a k owned (blocks_needed_for a n),
      blocks_of-put_owned_self a k owned a.free_blocks,
      blocks_of-put_owned_self a k (owned ++ take extra a.free_blocks) (drop extra a.free_blocks),
    )

length-take_missing :
    (owned free : List ℕ) (needed : ℕ)
    → needed ≤ length owned + length free
    → length (owned ++ take (needed - length owned) free) ≡ max (length owned) needed
length-take_missing owned free needed h = omega (
  arith,
  length-append owned (take (needed - length owned) free),
  length-take (needed - length owned) free,
)

-- How many blocks the sequence has after a call that succeeded.
pub length-ensure_capacity :
    (a : Allocator) (k n : ℕ)
    → (ensure_capacity a k n).1 ≡ true
    → length (blocks_of (ensure_capacity a k n).0 k)
      ≡ max (length (blocks_of a k)) (blocks_needed_for a n)
unfolding free_block_count
length-ensure_capacity a k n h =
    let owned : List ℕ = blocks_of a k in
    let needed : ℕ = blocks_needed_for a n in
    let facts = ensure_capacity_lem a k n in
    rw facts.1
      (rw h (length-take_missing owned a.free_blocks needed (leb→le _ _ (sym facts.0 ∙ h))))

-- No other sequence notices.
pub blocks_of-ensure_capacity_ne :
    (a : Allocator) (k j n : ℕ) → k ≢ j → blocks_of (ensure_capacity a k n).0 j ≡ blocks_of a j
unfolding ensure_capacity
blocks_of-ensure_capacity_ne a k j n h =
    let owned : List ℕ = blocks_of a k in
    let extra : ℕ = blocks_needed_for a n - length owned in
    ground (
      arith,
      grow_to_lem a k owned (blocks_needed_for a n),
      blocks_of-put_owned_ne a k j owned a.free_blocks,
      blocks_of-put_owned_ne a k j (owned ++ take extra a.free_blocks) (drop extra a.free_blocks),
    )

-- free_sequence leaves the sequence with nothing and puts the blocks that it had on the free stack,
-- each as often as it had it, beside those that are there; no other sequence notices. (In a map a key
-- has one entry at most.)
pub free_sequence_lem :
    (a : Allocator) (k j : ℕ)
    → keyed k a.tables ≤ 1
    → let a' = free_sequence a k in
      (blocks_of a' j ≡ (if k == j then [] else blocks_of a j))
      × (free_block_count a' ≡ length (blocks_of a k) + free_block_count a)
      × ((b : ℕ) → count b a'.free_blocks ≡ count b (blocks_of a k) + count b a.free_blocks)
unfolding free_sequence blocks_of free_block_count
free_sequence_lem a k j one = elim (Option-cases (find k a.tables)) [
  | inl e ↦ rw (e, free_sequence) (ground (arith, e), omega arith, λ b. omega arith)
  | inr (owned, e) ↦
      rw (e, free_sequence)
        (
          ground (arith, find-erase_self k a.tables one, find-erase_ne k j a.tables),
          length-give_back owned a.free_blocks,
          λ b. count-give_back b owned a.free_blocks,
        )
]
