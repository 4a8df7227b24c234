-- ===== src/Router/Assignment/Tallies.antt =====
-- The groups of assign_effective_experts of src/orchestration/router.hpp, by sums over their indices.
use aether_mo_e.Common.{
  ℕ, zero, suc, ◌+◌, ◌≤◌, ◌<◌, ◌≡◌, refl, Bool, List, [], ◌∷◌, ◌++◌, ◌==◌, if◌then◌else◌, length,
  get_or, arith, count, ltb,
}
use aether_mo_e.RoutedToken.{RoutedToken}
use aether_mo_e.Router.Assignment.{push_at, index_by_primary, no_token}

-- The sum of `w` over a list.
abbrev pub sum_of : (ℕ → ℕ) → List ℕ → ℕ
sum_of w [] = 0
sum_of w (i ∷ idxs) = w i + sum_of w idxs

sum_of-append : (w : ℕ → ℕ) (xs ys : List ℕ) → sum_of w (xs ++ ys) ≡ sum_of w xs + sum_of w ys
sum_of-append w [] ys = omega arith
sum_of-append w (x ∷ xs) ys = omega (arith, sum_of-append w xs ys)

-- Over the groups whose expert has `p`.
abbrev pub total : (ℕ → Bool) → (ℕ → ℕ) → List (ℕ × List ℕ) → ℕ
total p w [] = 0
total p w ((e, idxs) ∷ groups) = (if p e then sum_of w idxs else 0) + total p w groups

-- Over the tokens whose primary expert has `p`, the first of which has index `j`.
abbrev pub tally : (ℕ → Bool) → (ℕ → ℕ) → ℕ → List RoutedToken → ℕ
tally p w j [] = 0
tally p w j (t ∷ ts) = (if p t.primary_expert then w j else 0) + tally p w (j + 1) ts

abbrev pub keyed : ℕ → List (ℕ × List ℕ) → ℕ
keyed e [] = 0
keyed e ((k, idxs) ∷ groups) = (if k == e then 1 else 0) + keyed e groups

total-push_at :
    (p : ℕ → Bool) (w : ℕ → ℕ) (e i : ℕ) (groups : List (ℕ × List ℕ))
    → total p w (push_at e i groups) ≡ total p w groups + (if p e then w i else 0)
unfolding push_at
total-push_at p w e i [] = ground arith
total-push_at p w e i ((k, idxs) ∷ groups) =
    ground (arith, sum_of-append w idxs (i ∷ []), total-push_at p w e i groups)

keyed-push_at :
    (e k i : ℕ) (groups : List (ℕ × List ℕ))
    → keyed e (push_at k i groups)
      ≡ keyed e groups + (if k == e then (if keyed e groups == 0 then 1 else 0) else 0)
unfolding push_at
keyed-push_at e k i [] = ground arith
keyed-push_at e k i ((j, idxs) ∷ groups) = ground (arith, keyed-push_at e k i groups)

pub total-index_by_primary :
    (p : ℕ → Bool) (w : ℕ → ℕ) (j : ℕ) (ts : List RoutedToken) (groups : List (ℕ × List ℕ))
    → total p w (index_by_primary j ts groups) ≡ total p w groups + tally p w j ts
unfolding index_by_primary
total-index_by_primary p w j [] groups = omega arith
total-index_by_primary p w j (t ∷ ts) groups = omega (
  arith,
  total-index_by_primary p w (j + 1) ts (push_at t.primary_expert j groups),
  total-push_at p w t.primary_expert j groups,
)

pub keyed-index_by_primary :
    (e j : ℕ) (ts : List RoutedToken) (groups : List (ℕ × List ℕ))
    → keyed e groups ≤ 1
    → keyed e (index_by_primary j ts groups) ≤ 1
unfolding index_by_primary
keyed-index_by_primary e j [] groups h = h
keyed-index_by_primary e j (t ∷ ts) groups h =
    keyed-index_by_primary e (j + 1) ts (push_at t.primary_expert j groups)
      (ground (arith, keyed-push_at e t.primary_expert j groups))

-- Is it the index `i`?
abbrev pub indicator : ℕ → ℕ → ℕ
indicator i j = if i == j then 1 else 0

tally-indicator_old :
    (p : ℕ → Bool) (i j : ℕ) (ts : List RoutedToken) → i < j → tally p (indicator i) j ts ≡ 0
tally-indicator_old p i j [] h = refl
tally-indicator_old p i j (t ∷ ts) h =
    ground (arith, tally-indicator_old p i (j + 1) ts (omega arith))

pub tally-indicator :
    (p : ℕ → Bool) (i j k : ℕ) (ts : List RoutedToken)
    → j + k ≡ i
    → tally p (indicator i) j ts ≡ (
        if ltb k (length ts) then (if p (get_or ts k no_token).primary_expert then 1 else 0) else 0)
tally-indicator p i j k [] e = ground arith
tally-indicator p i j zero (t ∷ ts) e =
    ground (arith, tally-indicator_old p i (j + 1) ts (omega arith))
tally-indicator p i j (suc k) (t ∷ ts) e =
    ground (arith, tally-indicator p i (j + 1) k ts (omega arith))

pub sum_of-indicator : (i : ℕ) (idxs : List ℕ) → sum_of (indicator i) idxs ≡ count i idxs
sum_of-indicator i [] = refl
sum_of-indicator i (j ∷ idxs) = omega (arith, sum_of-indicator i idxs)

-- No group has the expert.
pub total_unkeyed :
    (e : ℕ) (w : ℕ → ℕ) (groups : List (ℕ × List ℕ))
    → keyed e groups ≡ 0
    → total (λ k. k == e) w groups ≡ 0
total_unkeyed e w [] h = refl
total_unkeyed e w ((k, idxs) ∷ groups) h = ground (arith, total_unkeyed e w groups)
