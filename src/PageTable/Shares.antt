-- ===== src/PageTable/Shares.antt =====
-- When a request of page_table.hpp for blocks cannot fail: each sequence keeps to a share of the
-- pool, and the shares fit into the pool together.
use native.Mathlib.Decide.{ℕ_discrete}
use native.Mathlib.Nat.{le_trans, div-mul-le_self, le-div_iff_mul-le}
use aether_mo_e.Common.{
  ◌∙◌, ℕ, ◌+◌, ◌-◌, ◌/◌, ◌%◌, ◌^◌, ◌≤◌, ◌<◌, ◌≡◌, refl, true, List, [], ◌∷◌, arith, ok, length,
  count, replicate, length-replicate, Bool-cases, inl, inr,
}
use aether_mo_e.PageTable.{
  Allocator, Tables, find, store, erase, or_empty, blocks_of, blocks_needed_for, ensure_capacity,
  grow_to, free_sequence, free_block_count, create,
}
use aether_mo_e.PageTable.Tables.{
  keyed, size, size-eq_zero, size-store, size-erase, find-store, keyed-store, keyed-erase-le,
  find-erase_self, find-erase_ne,
}
use aether_mo_e.PageTable.Capacity.{
  ensure_capacity_lem, length-ensure_capacity, blocks_of-ensure_capacity_ne, free_sequence_lem,
}
use aether_mo_e.PageTable.Exclusive.{
  IsExclusive, create-IsExclusive, blocks_of-create, ensure_capacity-IsExclusive,
  free_sequence-IsExclusive,
}

-- The shares of the keys of a list.
abbrev pub sum_over : (ℕ → ℕ) → List ℕ → ℕ
sum_over share [] = 0
sum_over share (k ∷ ks) = share k + sum_over share ks

length_eq_zero : (xs : List ℕ) → length xs ≡ 0 → xs ≡ []
length_eq_zero [] h = refl
length_eq_zero (x ∷ xs) h = absurd (omega arith)

-- The entries hold no more than the shares of the keys that may hold anything.
size_le :
    (share : ℕ → ℕ) (ks : List ℕ) (t : Tables)
    → ((k : ℕ) → keyed k t ≤ 1)
    → ((k : ℕ) → length (or_empty (find k t)) ≤ share k)
    → ((k : ℕ) → count k ks ≡ 0 → length (or_empty (find k t)) ≡ 0)
    → size t ≤ sum_over share ks
size_le share [] t one bounded others =
    omega (arith, size-eq_zero t one (λ k. length_eq_zero _ (others k refl)))
size_le share (k ∷ ks) t one bounded others =
    let gone : find k (erase k t) ≡ _ = find-erase_self k t (one k) in
    omega (
      arith,
      size-erase k t,
      bounded k,
      size_le share ks (erase k t) (λ j. omega (arith, keyed-erase-le k j t, one j))
          (λ j. elim (ℕ_discrete k j) [
            | yes e ↦ rw (← e, gone) (omega arith)
            | no ne ↦ rw (find-erase_ne k j t ne) (bounded j)
          ])
          (λ j h. elim (ℕ_discrete k j) [
            | yes e ↦ rw (← e, gone) refl
            | no ne ↦ rw (find-erase_ne k j t ne) (others j (ground arith))
          ]),
    )

-- Every entry keeps to its share.
record Within (share : ℕ → ℕ) (t : Tables) : Type 0 where
  one : (k : ℕ) → keyed k t ≤ 1
  bounded : (k : ℕ) → length (or_empty (find k t)) ≤ share k

store-Within :
    (share : ℕ → ℕ) (k : ℕ) (owned : List ℕ) (t : Tables)
    → length owned ≤ share k
    → Within share t
    → Within share (store k owned t)
store-Within share k owned t h w = record {
  one = λ j. ground (arith, keyed-store k j owned t, w.one j);
  bounded = λ j. ground (arith, find-store k j owned t, w.bounded j);
}

-- One entry can grow to its share, and all still fit.
size-room :
    (share : ℕ → ℕ) (ks : List ℕ) (k : ℕ) (t : Tables)
    → ((j : ℕ) → count j ks ≡ 0 → share j ≡ 0)
    → Within share t
    → size t + share k ≤ sum_over share ks + length (or_empty (find k t))
size-room share ks k t none_else w =
    let full : List ℕ = replicate (share k) 0 in
    let long : length full ≡ share k = length-replicate (share k) 0 in
    let w' = store-Within share k full t (omega (arith, long)) w in
    omega (
      arith,
      size-store k full t,
      long,
      size_le share ks (store k full t) w'.one w'.bounded
          (λ j h. omega (arith, w'.bounded j, none_else j h)),
    )

pub dimensions-ensure_capacity :
    (a : Allocator) (k n : ℕ)
    → ((ensure_capacity a k n).0.block_size ≡ a.block_size)
      × ((ensure_capacity a k n).0.num_blocks ≡ a.num_blocks)
unfolding ensure_capacity grow_to
dimensions-ensure_capacity a k n = ground arith

length-ensure_capacity_le :
    {m : ℕ} (a : Allocator) (k n : ℕ)
    → blocks_needed_for a n ≤ m
    → length (blocks_of a k) ≤ m
    → length (blocks_of (ensure_capacity a k n).0 k) ≤ m
length-ensure_capacity_le a k n h h' = elim (Bool-cases (ensure_capacity a k n).1) [
  | inl done ↦ omega (arith, length-ensure_capacity a k n done)
  | inr full ↦ rw ((ensure_capacity_lem a k n).1) (rw full h')
]

dimensions-free_sequence :
    (a : Allocator) (k : ℕ)
    → ((free_sequence a k).block_size ≡ a.block_size)
      × ((free_sequence a k).num_blocks ≡ a.num_blocks)
unfolding free_sequence
dimensions-free_sequence a k = ground arith

module _ (bs total : ℕ) (share : ℕ → ℕ) where
  -- The allocator keeps its dimensions, and no sequence has more than its share.
  pub record Room (a : Allocator) : Type 0 where
    pub exclusive : IsExclusive a
    pub blocks : a.block_size ≡ bs
    pub pool : a.num_blocks ≡ total
    pub bounded : (k : ℕ) → length (blocks_of a k) ≤ share k

  -- The shares fit into the pool together.
  pub record Ample (ks : List ℕ) : Type 0 where
    pub fits : sum_over share ks ≤ total
    pub none_else : (j : ℕ) → count j ks ≡ 0 → share j ≡ 0

  pub ensure_capacity-Room :
      (a : Allocator) (k n : ℕ)
      → blocks_needed_for a n ≤ share k
      → Room a
      → Room (ensure_capacity a k n).0
  ensure_capacity-Room a k n h r = record {
    exclusive = ensure_capacity-IsExclusive a k n r.exclusive;
    blocks = (dimensions-ensure_capacity a k n).0 ∙ r.blocks;
    pool = (dimensions-ensure_capacity a k n).1 ∙ r.pool;
    bounded = λ j. elim (ℕ_discrete k j) [
      | yes e ↦ rw (← e) (length-ensure_capacity_le a k n h (r.bounded k))
      | no ne ↦ rw (blocks_of-ensure_capacity_ne a k j n ne) (r.bounded j)
    ];
  }

  pub free_sequence-Room : (a : Allocator) (k : ℕ) → Room a → Room (free_sequence a k)
  free_sequence-Room a k r = record {
    exclusive = free_sequence-IsExclusive a k r.exclusive;
    blocks = (dimensions-free_sequence a k).0 ∙ r.blocks;
    pool = (dimensions-free_sequence a k).1 ∙ r.pool;
    bounded = λ j. ground (arith, (free_sequence_lem a k j (r.exclusive.keys k)).0, r.bounded j);
  }

  -- With ample shares, a request within the share succeeds.
  pub ensure_capacity_fits :
      (ks : List ℕ) (a : Allocator) (k n : ℕ)
      → Ample ks
      → Room a
      → blocks_needed_for a n ≤ share k
      → (ensure_capacity a k n).1 ≡ true
  unfolding blocks_of free_block_count
  ensure_capacity_fits ks a k n ample r h =
      (ensure_capacity_lem a k n).0
      ∙ ground (
        arith,
        size-room share ks k a.tables ample.none_else
            (record { one = r.exclusive.keys; bounded = r.bounded }),
        r.exclusive.all,
        ample.fits,
        r.pool,
      )

-- The blocks that `n` tokens fill, and the same number by `blocks_needed_for` where no sum wraps.
abbrev pub blocks_for : ℕ → ℕ → ℕ
blocks_for bs n = (n + bs - 1) / bs

div_mono : (n m b : ℕ) → 0 < b → n ≤ m → n / b ≤ m / b
div_mono n m b pos h = (le-div_iff_mul-le pos).1 (le_trans (div-mul-le_self n b) h)

pub blocks_needed_le :
    (a : Allocator) (bs n m : ℕ)
    → a.block_size ≡ bs
    → 0 < bs
    → n ≤ m
    → m + bs ≤ 2 ^ 64
    → blocks_needed_for a n ≤ blocks_for bs m
unfolding blocks_needed_for
blocks_needed_le a bs n m e pos h fits =
    rw (e, no_wrap) (div_mono (n + bs - 1) (m + bs - 1) bs pos (omega arith))
  where
    no_wrap : (n + bs + (2 ^ 64 - 1)) % 2 ^ 64 ≡ n + bs - 1
    no_wrap = omega arith

pub create-Room :
    (bs n : ℕ) (share : ℕ → ℕ) {a : Allocator} → n ≤ 2 ^ 32 → create bs n ≡ ok a → Room bs n share a
unfolding create
create-Room bs n share h e = record {
  exclusive = create-IsExclusive bs n h e;
  blocks = ground arith;
  pool = ground arith;
  bounded = λ k. rw (blocks_of-create bs n e k) (omega arith);
}
