-- ===== src/RingBuffer.antt =====
-- src/core/spmc_ring_buffer.hpp: LockFreeRingBuffer, one atomic access at a time.
-- Threads interleave in any order, each seeing the last value of each atomic (sequential consistency).
-- `pos & kMask` is the remainder by the capacity, a power of two.
pub mod Positions
pub mod Claims
pub mod Changes
pub mod Steps
pub mod Refinement
pub mod Deliveries
mod Tests
use aether_mo_e.Common.{
  ℕ, ◌+◌, ◌-◌, ◌%◌, ◌^◌, Bool, true, false, not, ◌&&◌, List, [], ◌∷◌, ◌++◌, ◌==◌, ltb, leb,
  if◌then◌else◌, length, size_t,
}

-- Write to an element of an array.
abbrev pub update {ℓ} : {A : Type ℓ} → (ℕ → A) → ℕ → A → ℕ → A
update cells i v j = if i == j then v else cells j

-- The members, the array of cells by its two fields. Two fields are no members, and no operation
-- reads them: `history` lists the items of the pushes that have won their position, and
-- `deliveries` what the pops have returned, with their positions.
pub record Ring (A : Type 0) : Type 0 where
  pub enqueue_pos : ℕ
  pub dequeue_pos : ℕ
  pub sequence : ℕ → ℕ
  pub item : ℕ → A
  pub history : List A
  pub deliveries : List (ℕ × A)

-- The constructor; the items are not initialised.
unfoldable pub create : {A : Type 0} → (ℕ → A) → Ring A
create items = record {
  enqueue_pos = 0;
  dequeue_pos = 0;
  sequence = λ i. i;
  item = items;
  history = [];
  deliveries = [];
}

-- What a call returns.
pub data Reply (A : Type 0) : Type 0 where
  no_call pushed full empty : Reply A
  popped : A → Reply A

-- Where a thread stands: in no call, with the reply to the last one, or before an access of
-- try_push or try_pop, with the variables that are live there.
pub data Pc (A : Type 0) : Type 0 where
  idle : Reply A → Pc A
  push_load : A → Pc A
  push_check : A → (pos : ℕ) → Pc A
  push_claim : A → (pos : ℕ) → Pc A
  push_write : A → (pos : ℕ) → Pc A
  push_publish : A → (pos : ℕ) → Pc A
  pop_load : Pc A
  pop_check : (pos : ℕ) → Pc A
  pop_claim : (pos : ℕ) → Pc A
  pop_read : (pos : ℕ) → Pc A
  pop_release : A → (pos : ℕ) → Pc A

-- `diff < 0` for the difference of `a` and `b` as `intptr_t`.
abbrev pub is_behind : ℕ → ℕ → Bool
is_behind a b = ltb ((a + 2 ^ 63) % 2 ^ 64) ((b + 2 ^ 63) % 2 ^ 64)

module _ {A : Type 0} (capacity : ℕ) where
  -- One access of a thread. `fails` says that compare_exchange_weak fails spuriously.
  pub advance : Bool → Ring A → Pc A → Ring A × Pc A
  advance fails m (idle r) = (m, idle r)
  advance fails m (push_load x) = (m, push_check x m.enqueue_pos)
  advance fails m (push_check x pos) =
      if m.sequence (pos % capacity) == pos
      then (m, push_claim x pos)
      else (if is_behind (m.sequence (pos % capacity)) pos
          then (m, idle full)
          else (m, push_load x))
  advance fails m (push_claim x pos) =
      if not fails && m.enqueue_pos == pos
      then (
        record m { enqueue_pos = size_t (pos + 1); history = m.history ++ (x ∷ []) },
        push_write x pos,
      )
      else (m, push_check x m.enqueue_pos)
  advance fails m (push_write x pos) =
      (record m { item = update m.item (pos % capacity) x }, push_publish x pos)
  advance fails m (push_publish x pos) =
      (record m { sequence = update m.sequence (pos % capacity) (size_t (pos + 1)) }, idle pushed)
  advance fails m pop_load = (m, pop_check m.dequeue_pos)
  advance fails m (pop_check pos) =
      if m.sequence (pos % capacity) == size_t (pos + 1)
      then (m, pop_claim pos)
      else (if is_behind (m.sequence (pos % capacity)) (size_t (pos + 1))
          then (m, idle empty)
          else (m, pop_load))
  advance fails m (pop_claim pos) =
      if not fails && m.dequeue_pos == pos
      then (record m { dequeue_pos = size_t (pos + 1) }, pop_read pos)
      else (m, pop_check m.dequeue_pos)
  advance fails m (pop_read pos) = (m, pop_release (m.item (pos % capacity)) pos)
  advance fails m (pop_release v pos) = (
    record m {
      sequence = update m.sequence (pos % capacity) (size_t (pos + (capacity - 1) + 1));
      deliveries = (pos, v) ∷ m.deliveries;
    },
    idle (popped v),
  )

-- The ring and its threads.
pub record System (A : Type 0) : Type 0 where
  pub ring : Ring A
  pub pc : ℕ → Pc A

-- What the scheduler of the threads may choose: a thread that is in no call starts one, or a
-- thread makes its next access.
pub data Choice (A : Type 0) : Type 0 where
  call_push : (thread : ℕ) → A → Choice A
  call_pop : (thread : ℕ) → Choice A
  access : (thread : ℕ) → (fails : Bool) → Choice A

abbrev pub is_idle : {A : Type 0} → Pc A → Bool
is_idle (idle r) = true
is_idle _ = false

module _ {A : Type 0} (capacity : ℕ) where
  pub choose : System A → Choice A → System A
  unfolding advance
  choose s (call_push t x) =
      if is_idle (s.pc t) then record s { pc = update s.pc t (push_load x) } else s
  choose s (call_pop t) = if is_idle (s.pc t) then record s { pc = update s.pc t pop_load } else s
  choose s (access t fails) =
      let (m, p) = advance capacity fails s.ring (s.pc t) in
      record { ring = m; pc = update s.pc t p }

  pub run : System A → List (Choice A) → System A
  unfolding choose
  run s [] = s
  run s (c ∷ cs) = run (choose s c) cs

abbrev pub start : {A : Type 0} → (ℕ → A) → System A
start items = record { ring = create items; pc = λ t. idle no_call }

-- `size_approx`
unfoldable pub size_approx : {A : Type 0} → Ring A → ℕ
size_approx m = if leb m.dequeue_pos m.enqueue_pos then m.enqueue_pos - m.dequeue_pos else 0
