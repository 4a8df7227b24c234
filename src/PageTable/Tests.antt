-- ===== src/PageTable/Tests.antt =====
-- Calls on an allocator of three blocks of four tokens.
use aether_mo_e.Common.{
  ℕ, ◌+◌, ◌*◌, ◌≤◌, ◌<◌, max, ◌≡◌, refl, true, false, List, [], ◌∷◌, arith, ok, err,
  invalid_argument, length, count,
}
use aether_mo_e.PageTable.{
  Allocator, create, blocks_of, ensure_capacity, free_sequence, free_block_count, Call, ensures,
  run,
}
use aether_mo_e.PageTable.Capacity.{ensure_capacity_lem, free_sequence_lem}
use aether_mo_e.PageTable.Bounds.{ensure_capacity_slots}
use aether_mo_e.PageTable.Exclusive.{places, run-create-places}

abbrev fresh : Allocator
fresh = record { block_size = 4; num_blocks = 3; free_blocks = 0 ∷ 1 ∷ 2 ∷ []; tables = [] }

-- Sequence 7 has two blocks, sequence 8 asked for more than there are.
abbrev history : List Call
history = ensures 7 3 ∷ ensures 8 12 ∷ ensures 7 5 ∷ []

abbrev used : Allocator
used = record {
  block_size = 4;
  num_blocks = 3;
  free_blocks = 2 ∷ [];
  tables = (7, 0 ∷ 1 ∷ []) ∷ (8, []) ∷ [];
}

create-fresh : create 4 3 ≡ ok fresh
unfolding create
create-fresh = refl

create_of_zero : create 0 3 ≡ err invalid_argument
unfolding create
create_of_zero = refl

run-history : run fresh history ≡ used
unfolding run ensure_capacity
run-history = refl

freed_in_order : blocks_of (free_sequence used 7) 7 ≡ []
unfolding blocks_of free_sequence
freed_in_order = refl

run-create-places_example : places 1 (run fresh history) ≡ 1
run-create-places_example = run-create-places 4 3 history (omega arith) create-fresh 1

-- One more block is there for sequence 8, two are not.
ensure_capacity_example :
    ((ensure_capacity used 8 4).1 ≡ true)
    × (blocks_of (ensure_capacity used 8 4).0 8 ≡ 2 ∷ [])
    × ((ensure_capacity used 8 4).0.free_blocks ≡ [])
unfolding ensure_capacity free_block_count
ensure_capacity_example = ensure_capacity_lem used 8 4

ensure_capacity_refused : (ensure_capacity used 8 5).1 ≡ false
unfolding ensure_capacity
ensure_capacity_refused = refl

free_sequence_example :
    (blocks_of (free_sequence used 7) 7 ≡ [])
    × (free_block_count (free_sequence used 7) ≡ 3)
    × ((b : ℕ)
        → count b (free_sequence used 7).free_blocks ≡ count b (0 ∷ 1 ∷ []) + count b (2 ∷ []))
unfolding blocks_of free_block_count
free_sequence_example = free_sequence_lem used 7 7 (omega arith)

ensure_capacity_slots_example :
    let slots = length (blocks_of (ensure_capacity used 7 9).0 7) * 4 in
    (9 ≤ slots) × (slots < max 9 13)
unfolding blocks_of ensure_capacity
ensure_capacity_slots_example = ensure_capacity_slots used 7 9 (omega arith) (omega arith) refl
