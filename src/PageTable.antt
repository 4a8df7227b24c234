-- ===== src/PageTable.antt =====
-- src/core/page_table.hpp: PagedKVCacheAllocator, the allocator of KV-cache blocks.
-- The mutex makes each method one atomic step, so a method is a function from the allocator to the
-- allocator and its result. The children prove what the scheduler relies on.
pub mod Tables
pub mod Growth
pub mod Capacity
pub mod Exclusive
pub mod Bounds
pub mod Fragmentation
pub mod Shares
mod Tests
use aether_mo_e.Common.{
  ℕ, zero, suc, ◌+◌, ◌-◌, ◌*◌, ◌/◌, ◌%◌, ◌^◌, Bool, true, false, ◌||◌, Option, none, some, List, [],
  ◌∷◌, ◌++◌, ltb, leb, ◌==◌, if◌then◌else◌, length, size_t, Result, ok, err, invalid_argument,
}

-- `std::unordered_map<uint64_t, std::vector<int>>`, as its entries in any order.
abbrev pub Tables : Type 0
Tables = List (ℕ × List ℕ)

-- A block id is an `int`, kept as its 32-bit pattern. The head of `free_blocks` is the back of the
-- vector, where the code pushes and pops.
pub record Allocator : Type 0 where
  pub block_size : ℕ
  pub num_blocks : ℕ
  pub free_blocks : List ℕ
  pub tables : Tables

-- `static_cast<int>(i)`
abbrev pub to_int : ℕ → ℕ
to_int i = i % 2 ^ 32

-- `for (size_t i = num_blocks_; i-- > 0;) free_blocks_.push_back(static_cast<int>(i));`
unfoldable pub fill_free : ℕ → List ℕ → List ℕ
fill_free zero free = free
fill_free (suc i) free = fill_free i (to_int i ∷ free)

unfoldable pub create : ℕ → ℕ → Result Allocator
unfolding fill_free
create block_size num_blocks =
    if block_size == 0 || num_blocks == 0
    then err invalid_argument
    else ok (record {
      block_size = block_size;
      num_blocks = num_blocks;
      free_blocks = fill_free num_blocks [];
      tables = [];
    })

unfoldable pub free_block_count : Allocator → ℕ
free_block_count a = length a.free_blocks

-- `(token_count + block_size_ - 1) / block_size_` in `size_t`
unfoldable pub blocks_needed_for : Allocator → ℕ → ℕ
blocks_needed_for a token_count =
    (token_count + a.block_size + (2 ^ 64 - 1)) % 2 ^ 64 / a.block_size

-- `tables_.find(seq_id)`
unfoldable pub find : ℕ → Tables → Option (List ℕ)
find k [] = none
find k ((j, owned) ∷ t) = if j == k then some owned else find k t

-- What is stored through the reference that `tables_[seq_id]` gives; a missing entry is made.
unfoldable pub store : ℕ → List ℕ → Tables → Tables
store k owned [] = (k, owned) ∷ []
store k owned ((j, old) ∷ t) = if j == k then (j, owned) ∷ t else (j, old) ∷ store k owned t

-- `tables_.erase(it)`
unfoldable pub erase : ℕ → Tables → Tables
erase k [] = []
erase k ((j, owned) ∷ t) = if j == k then t else (j, owned) ∷ erase k t

abbrev pub or_empty : Option (List ℕ) → List ℕ
or_empty none = []
or_empty (some owned) = owned

-- The blocks of a sequence, in the order in which it got them; none for an unknown sequence.
unfoldable pub blocks_of : Allocator → ℕ → List ℕ
unfolding find
blocks_of a seq_id = or_empty (find seq_id a.tables)

-- `for (i < to_allocate) { owned.push_back(free_blocks_.back()); free_blocks_.pop_back(); }`
-- The caller has checked that the stack does not run empty; there the C++ is undefined.
unfoldable pub take_blocks : ℕ → List ℕ → List ℕ → List ℕ × List ℕ
take_blocks zero owned free = (owned, free)
take_blocks (suc n) owned [] = (owned, [])
take_blocks (suc n) owned (b ∷ free) = take_blocks n (owned ++ b ∷ []) free

-- The allocator with `owned` stored for the sequence.
abbrev pub put_owned : Allocator → ℕ → List ℕ → List ℕ → Allocator
put_owned a seq_id owned free = record a {
  free_blocks = free;
  tables = store seq_id owned a.tables;
}

-- `ensure_capacity` after its look-ups: `owned` is the vector of the sequence.
unfoldable pub grow_to : Allocator → ℕ → List ℕ → ℕ → Allocator × Bool
unfolding take_blocks store
grow_to a seq_id owned needed =
    if leb needed (length owned)
    then (put_owned a seq_id owned a.free_blocks, true)
    else (if ltb (length a.free_blocks) (needed - length owned)
        then (put_owned a seq_id owned a.free_blocks, false)
        else (let (owned', free') = take_blocks (needed - length owned) owned a.free_blocks in
            (put_owned a seq_id owned' free', true)))

unfoldable pub ensure_capacity : Allocator → ℕ → ℕ → Allocator × Bool
unfolding grow_to blocks_of blocks_needed_for
ensure_capacity a seq_id token_count =
    grow_to a seq_id (blocks_of a seq_id) (blocks_needed_for a token_count)

-- `for (int block : it->second) free_blocks_.push_back(block);`
unfoldable pub give_back : List ℕ → List ℕ → List ℕ
give_back [] free = free
give_back (b ∷ bs) free = give_back bs (b ∷ free)

release : Allocator → ℕ → Option (List ℕ) → Allocator
unfolding give_back erase
release a seq_id none = a
release a seq_id (some owned) = record a {
  free_blocks = give_back owned a.free_blocks;
  tables = erase seq_id a.tables;
}

unfoldable pub free_sequence : Allocator → ℕ → Allocator
unfolding release find
free_sequence a seq_id = release a seq_id (find seq_id a.tables)

-- The two sums, in `size_t`, of `internal_fragmentation_ratio`, of which it returns `1 - used / allocated` as a
-- double (0 if nothing is allocated); `counts` is its argument.
pub count_of : List (ℕ × ℕ) → ℕ → ℕ
count_of [] k = 0
count_of ((j, n) ∷ counts) k = if j == k then n else count_of counts k

pub allocated_slots : ℕ → Tables → ℕ
allocated_slots block_size [] = 0
allocated_slots block_size ((k, owned) ∷ t) =
    size_t (length owned * block_size + allocated_slots block_size t)

pub used_slots : List (ℕ × ℕ) → Tables → ℕ
unfolding count_of
used_slots counts [] = 0
used_slots counts ((k, owned) ∷ t) = size_t (count_of counts k + used_slots counts t)

-- The calls that change an allocator, and a history of them.
pub data Call : Type 0 where
  ensures : (seq_id token_count : ℕ) → Call
  frees : (seq_id : ℕ) → Call

pub apply : Allocator → Call → Allocator
unfolding ensure_capacity free_sequence
apply a (ensures seq_id token_count) = (ensure_capacity a seq_id token_count).0
apply a (frees seq_id) = free_sequence a seq_id

pub run : Allocator → List Call → Allocator
unfolding apply
run a [] = a
run a (c ∷ cs) = run (apply a c) cs
