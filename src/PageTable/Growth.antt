-- ===== src/PageTable/Growth.antt =====
-- The loops of page_table.hpp that move blocks: the constructor's, and those of ensure_capacity and
-- free_sequence.
use aether_mo_e.Common.{
  ℕ, zero, suc, ◌+◌, ◌%◌, ◌^◌, ◌≤◌, ◌≡◌, List, [], ◌∷◌, ◌++◌, arith, ltb, if◌then◌else◌, length,
  take, drop, count, append-nil, append_assoc,
}
use aether_mo_e.PageTable.{fill_free, take_blocks, give_back}

-- The loop moves the front of the free stack to the end of the sequence's vector.
pub take_blocks_lem :
    (n : ℕ) (owned free : List ℕ)
    → n ≤ length free
    → take_blocks n owned free ≡ (owned ++ take n free, drop n free)
unfolding take_blocks
take_blocks_lem zero owned free h = ground (arith, append-nil owned)
take_blocks_lem (suc n) owned [] h = absurd (omega arith)
take_blocks_lem (suc n) owned (b ∷ free) h =
    ground
      (arith, take_blocks_lem n (owned ++ b ∷ []) free, append_assoc owned (b ∷ []) (take n free))

pub count-take-drop :
    (b n : ℕ) (xs : List ℕ) → count b (take n xs) + count b (drop n xs) ≡ count b xs
count-take-drop b zero xs = omega arith
count-take-drop b (suc n) [] = omega arith
count-take-drop b (suc n) (x ∷ xs) = omega (arith, count-take-drop b n xs)

pub count-give_back :
    (b : ℕ) (owned free : List ℕ) → count b (give_back owned free) ≡ count b owned + count b free
unfolding give_back
count-give_back b [] free = omega arith
count-give_back b (x ∷ owned) free = omega (arith, count-give_back b owned (x ∷ free))

pub length-give_back :
    (owned free : List ℕ) → length (give_back owned free) ≡ length owned + length free
unfolding give_back
length-give_back [] free = omega arith
length-give_back (x ∷ owned) free = omega (arith, length-give_back owned (x ∷ free))

-- The constructor's loop makes each id below `n` once, if `n` ids fit an `int`.
pub count-fill_free :
    (b n : ℕ) (free : List ℕ)
    → n ≤ 2 ^ 32
    → count b (fill_free n free) ≡ (if ltb b n then 1 else 0) + count b free
unfolding fill_free
count-fill_free b zero free h = ground arith
count-fill_free b (suc n) free h = ground (arith, count-fill_free b n (n ∷ free))

pub length-fill_free : (n : ℕ) (free : List ℕ) → length (fill_free n free) ≡ n + length free
unfolding fill_free
length-fill_free zero free = omega arith
length-fill_free (suc n) free = omega (arith, length-fill_free n (n % 2 ^ 32 ∷ free))

pub take_eq_nil : (n : ℕ) (xs : List ℕ) → n ≡ 0 → take n xs ≡ []
take_eq_nil n xs h = rw h

pub drop_eq_self : (n : ℕ) (xs : List ℕ) → n ≡ 0 → drop n xs ≡ xs
drop_eq_self n xs h = rw h
