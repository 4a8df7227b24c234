-- ===== src/RingBuffer/Claims.antt =====
-- Which thread has claimed which position, and what each cell then holds.
use aether_mo_e.Common.{ℕ, ◌+◌, ◌%◌, ◌^◌, ◌≤◌, ◌<◌, ◌≡◌, ◌⊎◌, Option, none, some, length, get_elem?}
use aether_mo_e.RingBuffer.{
  Ring, Pc, idle, push_load, push_check, push_claim, push_write, push_publish, pop_load, pop_check,
  pop_claim, pop_read, pop_release, System,
}

-- The position that a thread has claimed and not finished with.
abbrev pub pushing : {A : Type 0} → Pc A → Option ℕ
pushing (push_write x pos) = some pos
pushing (push_publish x pos) = some pos
pushing _ = none

abbrev pub popping : {A : Type 0} → Pc A → Option ℕ
popping (pop_read pos) = some pos
popping (pop_release v pos) = some pos
popping _ = none

module _ {A : Type 0} (capacity : ℕ) (m : Ring A) where
  abbrev pub turn : ℕ → ℕ
  turn pos = m.sequence (pos % capacity)

  abbrev pub IsFilled : ℕ → A → Type 0
  IsFilled pos x = get_elem? m.history pos ≡ some x

  -- The cell of a position in the window of a capacity from `dequeue_pos` on: pushed, or claimed by
  -- a push; free, or not given up yet by the pop one lap before.
  abbrev pub Cell : ℕ → Type 0
  Cell pos =
      ((pos < m.enqueue_pos)
        × ((turn pos ≡ pos) ⊎ ((turn pos ≡ pos + 1) × IsFilled pos (m.item (pos % capacity)))))
      ⊎ ((m.enqueue_pos ≤ pos) × ((turn pos ≡ pos) ⊎ (turn pos + capacity ≡ pos + 1)))

  -- What a thread may rely on.
  abbrev pub Relies : Pc A → Type 0
  Relies (idle r) = Unit
  Relies (push_load x) = Unit
  Relies (push_check x pos) = pos ≤ m.enqueue_pos
  Relies (push_claim x pos) = (pos ≤ m.enqueue_pos) × (pos ≡ m.enqueue_pos → turn pos ≡ pos)
  Relies (push_write x pos) =
      (m.dequeue_pos ≤ pos) × (pos < m.enqueue_pos) × (turn pos ≡ pos) × IsFilled pos x
  Relies (push_publish x pos) =
      (m.dequeue_pos ≤ pos)
      × (pos < m.enqueue_pos)
      × (turn pos ≡ pos)
      × IsFilled pos x
      × (m.item (pos % capacity) ≡ x)
  Relies pop_load = Unit
  Relies (pop_check pos) = pos ≤ m.dequeue_pos
  Relies (pop_claim pos) = (pos ≤ m.dequeue_pos) × (pos ≡ m.dequeue_pos → turn pos ≡ pos + 1)
  Relies (pop_read pos) =
      (pos < m.dequeue_pos)
      × (m.enqueue_pos ≤ pos + capacity)
      × (turn pos ≡ pos + 1)
      × IsFilled pos (m.item (pos % capacity))
  Relies (pop_release v pos) =
      (pos < m.dequeue_pos)
      × (m.enqueue_pos ≤ pos + capacity)
      × (turn pos ≡ pos + 1)
      × IsFilled pos v

  -- The ring by itself. The bound on what has been pushed excludes that a position wraps.
  pub record IsWindow : Type 0 where
    pub big : 2 ≤ capacity
    pub few : length m.history + capacity < 2 ^ 63
    pub counted : m.enqueue_pos ≡ length m.history
    pub low : m.dequeue_pos ≤ m.enqueue_pos
    pub high : m.enqueue_pos ≤ m.dequeue_pos + capacity
    pub cells : (pos : ℕ) → m.dequeue_pos ≤ pos → pos < m.dequeue_pos + capacity → Cell pos

pub record Inv {A : Type 0} (capacity : ℕ) (s : System A) : Type 0 where
  pub window : IsWindow capacity s.ring
  pub relies : (t : ℕ) → Relies capacity s.ring (s.pc t)
  pub pushers : (t u pos : ℕ) → pushing (s.pc t) ≡ some pos → pushing (s.pc u) ≡ some pos → t ≡ u
  pub poppers : (t u pos : ℕ) → popping (s.pc t) ≡ some pos → popping (s.pc u) ≡ some pos → t ≡ u
