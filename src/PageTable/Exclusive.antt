-- ===== src/PageTable/Exclusive.antt =====
-- No physical block of page_table.hpp is lost, and none has two owners.
use aether_mo_e.Common.{
  ℕ, ap, ◌∙◌, ◌+◌, ◌-◌, ◌^◌, ◌≤◌, ◌<◌, ◌≡◌, refl, List, [], ◌∷◌, ◌++◌, inl, inr, arith, ltb, ok,
  leb, Bool-cases, length-take, length-drop, if◌then◌else◌, length, length-append, take, drop,
  count, count-append, Option-cases,
}
use aether_mo_e.PageTable.{
  Allocator, fill_free, put_owned, find, blocks_of, create, ensure_capacity, grow_to,
  blocks_needed_for, free_sequence, Call, ensures, frees, apply, run,
}
use aether_mo_e.PageTable.Tables.{
  keyed, held, size, keyed-store, keyed-erase-le, held-store, held-erase, size-store, size-erase,
}
use aether_mo_e.PageTable.Growth.{
  count-take-drop, count-give_back, length-give_back, count-fill_free, length-fill_free,
}
use aether_mo_e.PageTable.Capacity.{grow_to_lem}

-- In how many places a block is: on the free stack and in the vectors of the sequences.
abbrev pub places : ℕ → Allocator → ℕ
places b a = count b a.free_blocks + held b a.tables

abbrev fresh : ℕ → ℕ → Allocator
fresh bs n = record { block_size = bs; num_blocks = n; free_blocks = fill_free n []; tables = [] }

pub record IsExclusive (a : Allocator) : Type 0 where
  pub keys : (k : ℕ) → keyed k a.tables ≤ 1
  pub once : (b : ℕ) → places b a ≡ (if ltb b a.num_blocks then 1 else 0)
  pub all : length a.free_blocks + size a.tables ≡ a.num_blocks

create-eq_ok :
    (bs n : ℕ) {a : Allocator} → create bs n ≡ ok a → (a ≡ fresh bs n) × (0 < bs) × (0 < n)
unfolding create
create-eq_ok bs n e = ground arith

fresh-IsExclusive : (bs n : ℕ) → n ≤ 2 ^ 32 → IsExclusive (fresh bs n)
fresh-IsExclusive bs n h = record {
  keys = λ k. omega arith;
  once = λ b. omega (arith, count-fill_free b n [] h);
  all = omega (arith, length-fill_free n []);
}

-- A constructor that does not throw gives an allocator in which every block is in one place.
pub create-IsExclusive :
    (bs n : ℕ) {a : Allocator} → n ≤ 2 ^ 32 → create bs n ≡ ok a → IsExclusive a
create-IsExclusive bs n h e = rw ((create-eq_ok bs n e).0) (fresh-IsExclusive bs n h)

-- A new allocator has given out no block.
pub blocks_of-create :
    (bs n : ℕ) {a : Allocator} → create bs n ≡ ok a → (k : ℕ) → blocks_of a k ≡ []
unfolding blocks_of
blocks_of-create bs n e k = rw ((create-eq_ok bs n e).0)

-- Storing a vector that has the same blocks as the old one together with the free stack.
put_owned-IsExclusive :
    (a : Allocator) (k : ℕ) (owned free : List ℕ)
    → ((b : ℕ) → count b owned + count b free ≡ count b (blocks_of a k) + count b a.free_blocks)
    → length owned + length free ≡ length (blocks_of a k) + length a.free_blocks
    → IsExclusive a
    → IsExclusive (put_owned a k owned free)
unfolding blocks_of
put_owned-IsExclusive a k owned free same long v = record {
  keys = λ j. ground (arith, keyed-store k j owned a.tables, v.keys j);
  once = λ b. ground (arith, held-store b k owned a.tables, same b, v.once b);
  all = ground (arith, size-store k owned a.tables, v.all);
}

pub ensure_capacity-IsExclusive :
    (a : Allocator) (k n : ℕ) → IsExclusive a → IsExclusive (ensure_capacity a k n).0
unfolding ensure_capacity
ensure_capacity-IsExclusive a k n v =
    let owned : List ℕ = blocks_of a k in
    let needed : ℕ = blocks_needed_for a n in
    let extra : ℕ = needed - length owned in
    rw (grow_to_lem a k owned needed)
      (elim (Bool-cases (leb needed (length owned + length a.free_blocks))) [
        | inl fits ↦ rw fits (
            put_owned-IsExclusive a k (owned ++ take extra a.free_blocks) (drop extra a.free_blocks)
              (λ b. omega (
                arith,
                count-append b owned (take extra a.free_blocks),
                count-take-drop b extra a.free_blocks,
              ))
              (omega (
                arith,
                length-append owned (take extra a.free_blocks),
                length-take extra a.free_blocks,
                length-drop extra a.free_blocks,
              ))
              v)
        | inr full ↦ rw full (put_owned-IsExclusive a k owned a.free_blocks (λ b. refl) refl v)
      ])

pub free_sequence-IsExclusive :
    (a : Allocator) (k : ℕ) → IsExclusive a → IsExclusive (free_sequence a k)
unfolding free_sequence
free_sequence-IsExclusive a k v = elim (Option-cases (find k a.tables)) [
  | inl e ↦ rw (e, free_sequence) v
  | inr (owned, e) ↦
      rw (e, free_sequence)
        (record {
          keys = λ j. omega (arith, keyed-erase-le k j a.tables, v.keys j);
          once = λ b.
              ground (
                arith,
                e,
                held-erase b k a.tables,
                count-give_back b owned a.free_blocks,
                v.once b,
              );
          all = ground (arith, e, size-erase k a.tables, length-give_back owned a.free_blocks);
        })
]

apply-IsExclusive : (a : Allocator) (c : Call) → IsExclusive a → IsExclusive (apply a c)
unfolding apply
apply-IsExclusive a (ensures k n) v = ensure_capacity-IsExclusive a k n v
apply-IsExclusive a (frees k) v = free_sequence-IsExclusive a k v

pub run-IsExclusive : (a : Allocator) (cs : List Call) → IsExclusive a → IsExclusive (run a cs)
unfolding run
run-IsExclusive a [] v = v
run-IsExclusive a (c ∷ cs) v = run-IsExclusive (apply a c) cs (apply-IsExclusive a c v)

num_blocks-apply : (a : Allocator) (c : Call) → (apply a c).num_blocks ≡ a.num_blocks
unfolding apply ensure_capacity grow_to free_sequence
num_blocks-apply a (ensures k n) = ground arith
num_blocks-apply a (frees k) = ground arith

num_blocks-run : (a : Allocator) (cs : List Call) → (run a cs).num_blocks ≡ a.num_blocks
unfolding run
num_blocks-run a [] = refl
num_blocks-run a (c ∷ cs) = num_blocks-run (apply a c) cs ∙ num_blocks-apply a c

-- After any history of calls on a new allocator whose block ids fit an `int`, each physical block is
-- in exactly one place, the free stack or the vector of one sequence, and no other id is anywhere.
pub run-create-places :
    (bs n : ℕ) {a : Allocator} (cs : List Call)
    → n ≤ 2 ^ 31
    → create bs n ≡ ok a
    → (b : ℕ) → places b (run a cs) ≡ (if ltb b n then 1 else 0)
run-create-places bs n {a} cs h e b = omega (
  arith,
  (run-IsExclusive a cs (create-IsExclusive bs n (omega arith) e)).once b,
  ap {B = ℕ} (λ m. if ltb b m then 1 else 0) (num_blocks-run a cs),
  ap {B = ℕ} (λ (c : Allocator). if ltb b c.num_blocks then 1 else 0) ((create-eq_ok bs n e).0),
)
