-- ===== src/RingBuffer/Changes.antt =====
-- The four writes to the ring that threads rely on, and what stays true for the others.
use aether_mo_e.Common.{
  ℕ, zero, suc, ◌+◌, ◌-◌, ◌%◌, ◌^◌, ◌<◌, ◌≡◌, ◌≢◌, refl, List, [], ◌∷◌, ◌++◌, some, length,
  get_elem?, size_t, arith, length-append,
}
use aether_mo_e.RingBuffer.{
  Ring, Pc, idle, push_load, push_check, push_claim, push_write, push_publish, pop_load, pop_check,
  pop_claim, pop_read, pop_release, update,
}
use aether_mo_e.RingBuffer.Positions.{mod-ne, mod_lap}
use aether_mo_e.RingBuffer.Claims.{pushing, popping, turn, Relies, IsWindow}

pub get_elem?-append_left {ℓ} :
    {A : Type ℓ} (xs ys : List A) (i : ℕ) → i < length xs → get_elem? (xs ++ ys) i ≡ get_elem? xs i
get_elem?-append_left [] ys i h = absurd (omega arith)
get_elem?-append_left (x ∷ xs) ys zero h = refl
get_elem?-append_left (x ∷ xs) ys (suc i) h = get_elem?-append_left xs ys i (omega arith)

get_elem?-append_last {ℓ} :
    {A : Type ℓ} (xs : List A) (x : A) → get_elem? (xs ++ (x ∷ [])) (length xs) ≡ some x
get_elem?-append_last [] x = refl
get_elem?-append_last (y ∷ xs) x = get_elem?-append_last xs x

module _ {A : Type 0} (capacity : ℕ) (m : Ring A) (w : IsWindow capacity m) where
  open w use {big, few, counted, low, high, cells}

  -- A push claims the next position.
  module _ (x : A) (free : turn capacity m m.enqueue_pos ≡ m.enqueue_pos) where
    abbrev pub claimed : Ring A
    claimed = record m { enqueue_pos = size_t (m.enqueue_pos + 1); history = m.history ++ (x ∷ []) }

    pub room : m.enqueue_pos < m.dequeue_pos + capacity
    room = ground (arith, cells m.dequeue_pos, mod_lap capacity m.dequeue_pos)

    pub claimed-Relies : (p : Pc A) → Relies capacity m p → Relies capacity claimed p
    claimed-Relies (idle r) h = tt
    claimed-Relies (push_load y) h = tt
    claimed-Relies (push_check y pos) h = omega arith
    claimed-Relies (push_claim y pos) h = ground arith
    claimed-Relies (push_write y pos) h =
        ground (arith, get_elem?-append_left m.history (x ∷ []) pos)
    claimed-Relies (push_publish y pos) h =
        ground (arith, get_elem?-append_left m.history (x ∷ []) pos)
    claimed-Relies pop_load h = tt
    claimed-Relies (pop_check pos) h = h
    claimed-Relies (pop_claim pos) h = h
    claimed-Relies (pop_read pos) h =
        ground (arith, mod_lap capacity pos, get_elem?-append_left m.history (x ∷ []) pos)
    claimed-Relies (pop_release v pos) h =
        ground (arith, mod_lap capacity pos, get_elem?-append_left m.history (x ∷ []) pos)

    pub claimed_own : Relies capacity claimed (push_write x m.enqueue_pos)
    claimed_own = ground (arith, get_elem?-append_last m.history x)

    pub claimed-IsWindow :
        length (m.history ++ (x ∷ [])) + capacity < 2 ^ 63 → IsWindow capacity claimed
    claimed-IsWindow bound = record {
      big = big;
      few = bound;
      counted = omega (arith, length-append m.history (x ∷ []));
      low = omega arith;
      high = omega (arith, room);
      cells =
          λ pos h k. ground (arith, cells pos h k, get_elem?-append_left m.history (x ∷ []) pos);
    }

  -- A push writes its item.
  module _ (x : A) (own : ℕ) (h : Relies capacity m (push_write x own)) where
    abbrev pub written : Ring A
    written = record m { item = update m.item (own % capacity) x }

    pub written-Relies :
        (p : Pc A) → pushing p ≢ some own → Relies capacity m p → Relies capacity written p
    written-Relies (idle r) ne h = tt
    written-Relies (push_load y) ne h = tt
    written-Relies (push_check y pos) ne h = h
    written-Relies (push_claim y pos) ne h = h
    written-Relies (push_write y pos) ne h = h
    written-Relies (push_publish y pos) ne k = ground arith
    written-Relies pop_load ne h = tt
    written-Relies (pop_check pos) ne h = h
    written-Relies (pop_claim pos) ne h = h
    written-Relies (pop_read pos) ne k = ground (arith, mod-ne capacity pos own)
    written-Relies (pop_release v pos) ne h = h

    pub written_own : Relies capacity written (push_publish x own)
    written_own = ground arith

    pub written-IsWindow : IsWindow capacity written
    written-IsWindow = record {
      big = big;
      few = few;
      counted = counted;
      low = low;
      high = high;
      cells = λ pos j k. ground (arith, cells pos j k, mod-ne capacity pos own);
    }

  -- A push publishes its position.
  module _ (x : A) (own : ℕ) (h : Relies capacity m (push_publish x own)) where
    abbrev pub published : Ring A
    published = record m { sequence = update m.sequence (own % capacity) (size_t (own + 1)) }

    pub published-Relies :
        (p : Pc A) → pushing p ≢ some own → Relies capacity m p → Relies capacity published p
    published-Relies (idle r) ne h = tt
    published-Relies (push_load y) ne h = tt
    published-Relies (push_check y pos) ne h = h
    published-Relies (push_claim y pos) ne k = (k.0, λ e. ground (arith, k.1 e))
    published-Relies (push_write y pos) ne k = ground arith
    published-Relies (push_publish y pos) ne k = ground arith
    published-Relies pop_load ne h = tt
    published-Relies (pop_check pos) ne h = h
    published-Relies (pop_claim pos) ne k =
        (k.0, λ e. ground (arith, k.1 e, mod-ne capacity pos own))
    published-Relies (pop_read pos) ne k = ground (arith, mod-ne capacity pos own)
    published-Relies (pop_release v pos) ne k = ground (arith, mod-ne capacity pos own)

    pub published-IsWindow : IsWindow capacity published
    published-IsWindow = record {
      big = big;
      few = few;
      counted = counted;
      low = low;
      high = high;
      cells = λ pos j k.
          ground (arith, cells pos j k, mod-ne capacity pos own, mod-ne capacity own pos);
    }

  -- A pop claims the next position.
  module _ (there : turn capacity m m.dequeue_pos ≡ m.dequeue_pos + 1) where
    abbrev pub taken : Ring A
    taken = record m { dequeue_pos = size_t (m.dequeue_pos + 1) }

    pub some_left : m.dequeue_pos < m.enqueue_pos
    some_left = ground (arith, cells m.dequeue_pos)

    pub taken-Relies : (p : Pc A) → Relies capacity m p → Relies capacity taken p
    taken-Relies (idle r) h = tt
    taken-Relies (push_load y) h = tt
    taken-Relies (push_check y pos) h = h
    taken-Relies (push_claim y pos) h = h
    taken-Relies (push_write y pos) h = ground arith
    taken-Relies (push_publish y pos) h = ground arith
    taken-Relies pop_load h = tt
    taken-Relies (pop_check pos) h = omega arith
    taken-Relies (pop_claim pos) h = ground arith
    taken-Relies (pop_read pos) h = ground arith
    taken-Relies (pop_release v pos) h = ground arith

    pub taken_own : Relies capacity taken (pop_read m.dequeue_pos)
    taken_own = ground (arith, cells m.dequeue_pos)

    pub taken-IsWindow : IsWindow capacity taken
    taken-IsWindow = record {
      big = big;
      few = few;
      counted = counted;
      low = omega (arith, some_left);
      high = omega (arith, some_left);
      cells = λ pos j k. ground (arith, cells pos, mod_lap capacity m.dequeue_pos);
    }

  -- A pop gives up the cell of its position.
  module _ (v : A) (own : ℕ) (h : Relies capacity m (pop_release v own)) where
    abbrev pub released : Ring A
    released = record m {
      sequence = update m.sequence (own % capacity) (size_t (own + (capacity - 1) + 1));
      deliveries = (own, v) ∷ m.deliveries;
    }

    pub released-Relies :
        (p : Pc A) → popping p ≢ some own → Relies capacity m p → Relies capacity released p
    released-Relies (idle r) ne h = tt
    released-Relies (push_load y) ne h = tt
    released-Relies (push_check y pos) ne h = h
    released-Relies (push_claim y pos) ne k =
        (k.0, λ e. ground (arith, k.1 e, mod-ne capacity own pos))
    released-Relies (push_write y pos) ne k = ground (arith, mod-ne capacity own pos)
    released-Relies (push_publish y pos) ne k = ground (arith, mod-ne capacity own pos)
    released-Relies pop_load ne h = tt
    released-Relies (pop_check pos) ne h = h
    released-Relies (pop_claim pos) ne k = (k.0, λ e. ground (arith, k.1 e))
    released-Relies (pop_read pos) ne k = ground (arith)
    released-Relies (pop_release u pos) ne k = ground (arith)

    pub released-IsWindow : IsWindow capacity released
    released-IsWindow = record {
      big = big;
      few = few;
      counted = counted;
      low = low;
      high = high;
      cells = λ pos j k. ground (
        arith,
        cells pos j k,
        mod-ne capacity own pos,
        mod-ne capacity (own + capacity) pos,
        mod_lap capacity own,
      );
    }
