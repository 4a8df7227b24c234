-- ===== src/Router/Assignment/Places.antt =====
-- Within one group of assign_effective_experts of src/orchestration/router.hpp: an index's place in the
-- sorted group, and what the loop over the ranks writes.
use native.Mathlib.Decide.{ℕ_discrete}
use aether_mo_e.Common.{
  ℕ, suc, ◌+◌, ◌≤◌, ◌<◌, ◌≡◌, ◌≢◌, refl, ap, ◌∙◌, List, [], ◌∷◌, ◌==◌, ltb, if◌then◌else◌, length,
  get_or, set, arith, count, sort_by, insert_by, IsSorted, All, length-set, get_or-set_self,
  get_or-set_other,
}
use aether_mo_e.RoutedToken.{RoutedToken}
use aether_mo_e.Router.Assignment.{assign_ranks, no_token}
use aether_mo_e.Router.Assignment.Tallies.{sum_of}

abbrev pub index_of : ℕ → List ℕ → ℕ
index_of i [] = 0
index_of i (x ∷ xs) = if x == i then 0 else suc (index_of i xs)

abbrev pub below : (ℕ → ℕ) → ℕ → ℕ → ℕ
below key b j = if ltb (key j) b then 1 else 0

sum_of-insert_by :
    (w key : ℕ → ℕ) (x : ℕ) (xs : List ℕ) → sum_of w (insert_by key x xs) ≡ w x + sum_of w xs
unfolding insert_by
sum_of-insert_by w key x [] = refl
sum_of-insert_by w key x (y ∷ ys) = ground (arith, sum_of-insert_by w key x ys)

pub sum_of-sort_by : (w key : ℕ → ℕ) (xs : List ℕ) → sum_of w (sort_by key xs) ≡ sum_of w xs
unfolding sort_by
sum_of-sort_by w key [] = refl
sum_of-sort_by w key (x ∷ xs) =
    omega (arith, sum_of-insert_by w key x (sort_by key xs), sum_of-sort_by w key xs)

none_below :
    (key : ℕ → ℕ) (b : ℕ) (xs : List ℕ) → All (λ y. b ≤ key y) xs → sum_of (below key b) xs ≡ 0
none_below key b [] h = refl
none_below key b (x ∷ xs) h = ground (arith, none_below key b xs)

All-count :
    (key : ℕ → ℕ) (b i : ℕ) (xs : List ℕ) → All (λ y. b ≤ key y) xs → 1 ≤ count i xs → b ≤ key i
All-count key b i [] h m = absurd (omega arith)
All-count key b i (x ∷ xs) h m = elim (ℕ_discrete i x) [
  | yes e ↦ omega (arith, h.0, ap key e)
  | no ne ↦ All-count key b i xs h.1 (ground arith)
]

-- In a sorted list with one key for `i` alone, its place is the number of smaller keys.
pub index_of-IsSorted :
    (key : ℕ → ℕ) (i : ℕ) (xs : List ℕ)
    → IsSorted key xs
    → 1 ≤ count i xs
    → ((j : ℕ) → 1 ≤ count j xs → key j ≡ key i → j ≡ i)
    → index_of i xs ≡ sum_of (below key (key i)) xs
index_of-IsSorted key i [] s m alone = absurd (omega arith)
index_of-IsSorted key i (x ∷ xs) s m alone = elim (ℕ_discrete x i) [
  | yes e ↦ rw e (ground (arith, none_below key (key i) xs (rw e at s.0)))
  | no ne ↦
      let here : 1 ≤ count i xs = ground arith in
      let least : key x ≤ key i = All-count key (key x) i xs s.0 here in
      let other : key x ≢ key i = λ k. ne (alone x (ground arith) k) in
      let rest : index_of i xs ≡ sum_of (below key (key i)) xs =
        index_of-IsSorted key i xs s.1 here (λ j c k. alone j (ground arith) k) in
      ground arith
]

module _ (tokens : List RoutedToken) (cap : ℕ) where
  abbrev pub effective : ℕ → ℕ → ℕ
  effective rank i =
      if ltb rank cap
      then (get_or tokens i no_token).primary_expert
      else (get_or tokens i no_token).secondary_expert

  pub assign_ranks_other :
      (i rank : ℕ) (idxs es : List ℕ)
      → count i idxs ≡ 0
      → get_or (assign_ranks tokens cap rank idxs es) i 0 ≡ get_or es i 0
  unfolding assign_ranks
  assign_ranks_other i rank [] es h = refl
  assign_ranks_other i rank (x ∷ idxs) es h =
      assign_ranks_other i (rank + 1) idxs (set es x (effective rank x)) (ground arith)
      ∙ get_or-set_other es x i (effective rank x) 0 (λ e. absurd (ground arith))

  pub assign_ranks_lem :
      (i rank n : ℕ) (idxs es : List ℕ)
      → count i idxs ≡ 1
      → i < length es
      → rank + index_of i idxs ≡ n
      → get_or (assign_ranks tokens cap rank idxs es) i 0 ≡ effective n i
  unfolding assign_ranks
  assign_ranks_lem i rank n [] es one h e = absurd (omega arith)
  assign_ranks_lem i rank n (x ∷ idxs) es one h e = elim (ℕ_discrete x i) [
    | yes same ↦
        let rank_eq : rank ≡ n = ground arith in
        rw same (
          assign_ranks_other i (rank + 1) idxs (set es i (effective rank i)) (ground arith)
          ∙ get_or-set_self es i (effective rank i) 0 h
          ∙ ap (λ m. effective m i) rank_eq)
    | no ne ↦
        assign_ranks_lem i (rank + 1) n idxs (set es x (effective rank x)) (ground arith)
          (omega (arith, length-set es x (effective rank x))) (ground arith)
  ]
