-- ===== src/PageTable/Tables.antt =====
-- The map of page_table.hpp: look-ups after a store and an erase, and what its entries add up to.
use native.Mathlib.Decide.{ℕ_discrete}
use aether_mo_e.Common.{
  ap, ℕ, ◌+◌, ◌≤◌, max, ◌≡◌, refl, ◌≢◌, List, [], ◌∷◌, none, some, arith, ◌==◌, if◌then◌else◌,
  length, count,
}
use aether_mo_e.PageTable.{Tables, find, store, erase, or_empty}

-- How many entries a key has; a map has one at most.
abbrev pub keyed : ℕ → Tables → ℕ
keyed k [] = 0
keyed k ((j, owned) ∷ t) = (if j == k then 1 else 0) + keyed k t

-- How often a block stands in the entries.
abbrev pub held : ℕ → Tables → ℕ
held b [] = 0
held b ((k, owned) ∷ t) = count b owned + held b t

-- How many blocks the entries hold.
abbrev pub size : Tables → ℕ
size [] = 0
size ((k, owned) ∷ t) = length owned + size t

pub find-store :
    (k j : ℕ) (owned : List ℕ) (t : Tables)
    → find j (store k owned t) ≡ (if k == j then some owned else find j t)
unfolding find store
find-store k j owned [] = refl
find-store k j owned ((i, old) ∷ t) = ground (arith, find-store k j owned t)

pub keyed-store :
    (k j : ℕ) (owned : List ℕ) (t : Tables)
    → keyed j (store k owned t) ≡ (if k == j then max 1 (keyed j t) else keyed j t)
unfolding store
keyed-store k j owned [] = ground arith
keyed-store k j owned ((i, old) ∷ t) = ground (arith, keyed-store k j owned t)

pub keyed-erase-le : (k j : ℕ) (t : Tables) → keyed j (erase k t) ≤ keyed j t
unfolding erase
keyed-erase-le k j [] = omega arith
keyed-erase-le k j ((i, old) ∷ t) = ground (arith, keyed-erase-le k j t)

find_unkeyed : (k : ℕ) (t : Tables) → keyed k t ≡ 0 → find k t ≡ none
unfolding find
find_unkeyed k [] h = refl
find_unkeyed k ((i, old) ∷ t) h = ground (arith, find_unkeyed k t)

pub find-erase_self : (k : ℕ) (t : Tables) → keyed k t ≤ 1 → find k (erase k t) ≡ none
unfolding find erase
find-erase_self k [] h = refl
find-erase_self k ((i, old) ∷ t) h = ground (arith, find_unkeyed k t, find-erase_self k t)

pub find-erase_ne : (k j : ℕ) (t : Tables) → k ≢ j → find j (erase k t) ≡ find j t
unfolding find erase
find-erase_ne k j [] h = refl
find-erase_ne k j ((i, old) ∷ t) h = ground (arith, find-erase_ne k j t)

-- A store replaces what the entry held before.
pub held-store :
    (b k : ℕ) (owned : List ℕ) (t : Tables)
    → held b (store k owned t) + count b (or_empty (find k t)) ≡ held b t + count b owned
unfolding find store
held-store b k owned [] = omega arith
held-store b k owned ((i, old) ∷ t) = ground (arith, held-store b k owned t)

pub size-store :
    (k : ℕ) (owned : List ℕ) (t : Tables)
    → size (store k owned t) + length (or_empty (find k t)) ≡ size t + length owned
unfolding find store
size-store k owned [] = omega arith
size-store k owned ((i, old) ∷ t) = ground (arith, size-store k owned t)

pub held-erase :
    (b k : ℕ) (t : Tables) → held b (erase k t) + count b (or_empty (find k t)) ≡ held b t
unfolding find erase
held-erase b k [] = omega arith
held-erase b k ((i, old) ∷ t) = ground (arith, held-erase b k t)

pub size-erase : (k : ℕ) (t : Tables) → size (erase k t) + length (or_empty (find k t)) ≡ size t
unfolding find erase
size-erase k [] = omega arith
size-erase k ((i, old) ∷ t) = ground (arith, size-erase k t)

-- If no key has a block, the entries are all empty.
pub size-eq_zero :
    (t : Tables) → ((k : ℕ) → keyed k t ≤ 1) → ((k : ℕ) → or_empty (find k t) ≡ []) → size t ≡ 0
unfolding find
size-eq_zero [] one none_held = refl
size-eq_zero ((j, owned) ∷ t) one none_held =
    let rest : (k : ℕ) → or_empty (find k t) ≡ [] = λ k. elim (ℕ_discrete j k) [
      | yes e ↦ ap or_empty (find_unkeyed k t (ground (arith, one k)))
      | no ne ↦ ground (arith, none_held k)
    ] in
    let here : owned ≡ [] = ground (arith, none_held j) in
    omega (arith, ap length here, size-eq_zero t (λ k. ground (arith, one k)) rest)
