-- ===== src/Router/Assignment/Ceiling.antt =====
-- Who keeps the primary expert: assign_effective_experts of src/orchestration/router.hpp against a count.
use native.Mathlib.Decide.{ℕ_discrete}
use aether_mo_e.Common.{
  ℕ, suc, ◌+◌, ◌≤◌, ◌<◌, ◌≡◌, refl, ap, ◌∙◌, Bool, not, List, [], ◌∷◌, ◌==◌, ltb, if◌then◌else◌,
  length, get_or, replicate, arith, count, sort_by, length-replicate, sort_by-IsSorted,
  count-sort_by,
}
use aether_mo_e.RoutedToken.{RoutedToken}
use aether_mo_e.Router.Assignment.{
  assign_ranks, assign_groups, assign_effective_experts, index_by_primary, no_token,
}
use aether_mo_e.Router.Assignment.Ranks.{length-assign_ranks}
use aether_mo_e.Router.Assignment.Tallies.{
  sum_of, total, tally, keyed, indicator, total-index_by_primary, keyed-index_by_primary,
  tally-indicator, sum_of-indicator, total_unkeyed,
}
use aether_mo_e.Router.Assignment.Places.{
  index_of, below, sum_of-sort_by, index_of-IsSorted, effective, assign_ranks_other,
  assign_ranks_lem,
}

-- How many tokens have the primary expert `e` and a batch position less than `b`.
abbrev pub ahead : ℕ → ℕ → List RoutedToken → ℕ
ahead e b [] = 0
ahead e b (t ∷ ts) =
    (if t.primary_expert == e then (if ltb t.batch_position b then 1 else 0) else 0) + ahead e b ts

module _ (tokens : List RoutedToken) (cap : ℕ) where
  abbrev position : ℕ → ℕ
  position i = (get_or tokens i no_token).batch_position

  abbrev primary : ℕ → ℕ
  primary i = (get_or tokens i no_token).primary_expert

  assign_groups_other :
      (i e : ℕ) (groups : List (ℕ × List ℕ)) (es : List ℕ)
      → total (λ k. k == e) (indicator i) groups ≡ 0
      → total (λ k. not (k == e)) (indicator i) groups ≡ 0
      → get_or (assign_groups tokens cap groups es) i 0 ≡ get_or es i 0
  unfolding assign_groups
  assign_groups_other i e [] es h g = refl
  assign_groups_other i e ((k, idxs) ∷ groups) es h g =
      let sorted : List ℕ = sort_by position idxs in
      let absent : count i sorted ≡ 0 =
        ground (arith, count-sort_by position i idxs, sum_of-indicator i idxs) in
      assign_groups_other i e groups (assign_ranks tokens cap 0 sorted es) (ground arith)
        (ground arith)
      ∙ assign_ranks_other tokens cap i 0 sorted es absent

  assign_groups_lem :
      (i e : ℕ) (groups : List (ℕ × List ℕ)) (es : List ℕ)
      → i < length es
      → keyed e groups ≤ 1
      → total (λ k. k == e) (indicator i) groups ≡ 1
      → total (λ k. not (k == e)) (indicator i) groups ≡ 0
      → ((j : ℕ) → 1 ≤ total (λ k. k == e) (indicator j) groups → position j ≡ position i → j ≡ i)
      → get_or (assign_groups tokens cap groups es) i 0
        ≡ effective tokens cap (total (λ k. k == e) (below position (position i)) groups) i
  unfolding assign_groups
  assign_groups_lem i e [] es h key one stray alone = absurd (omega arith)
  assign_groups_lem i e ((k, idxs) ∷ groups) es h key one stray alone = elim (ℕ_discrete k e) [
    | yes same ↦
        let sorted : List ℕ = sort_by position idxs in
        let smaller : ℕ → ℕ = below position (position i) in
        let last : keyed e groups ≡ 0 = ground arith in
        let once : count i sorted ≡ 1 = ground (
          arith,
          count-sort_by position i idxs,
          sum_of-indicator i idxs,
          total_unkeyed e (indicator i) groups last,
        ) in
        let alone_here : (j : ℕ) → 1 ≤ count j sorted → position j ≡ position i → j ≡ i = λ j m p.
          alone j (ground (arith, count-sort_by position j idxs, sum_of-indicator j idxs)) p in
        let place : index_of i sorted ≡ sum_of smaller sorted =
          index_of-IsSorted position i sorted (sort_by-IsSorted position idxs) (omega arith)
            alone_here in
        assign_groups_other i e groups (assign_ranks tokens cap 0 sorted es)
          (total_unkeyed e (indicator i) groups last) (ground arith)
        ∙ assign_ranks_lem tokens cap i 0 (total (λ k'. k' == e) smaller ((k, idxs) ∷ groups))
            sorted es once h
            (ground (
              arith,
              place,
              sum_of-sort_by smaller position idxs,
              total_unkeyed e smaller groups last,
            ))
    | no ne ↦
        let sorted : List ℕ = sort_by position idxs in
        let absent : count i sorted ≡ 0 =
          ground (arith, count-sort_by position i idxs, sum_of-indicator i idxs) in
        let rest : _ ≡ _ =
          assign_groups_lem i e groups (assign_ranks tokens cap 0 sorted es)
            (omega (arith, length-assign_ranks tokens cap 0 sorted es)) (ground arith)
            (ground arith) (ground arith) (λ j m p. alone j (ground arith) p) in
        rest ∙ ap (λ n. effective tokens cap n i) (ground arith)
  ]

  tally-below :
      (e b j : ℕ) (ts : List RoutedToken)
      → ((k : ℕ) → k < length ts → get_or tokens (j + k) no_token ≡ get_or ts k no_token)
      → tally (λ k. k == e) (below position b) j ts ≡ ahead e b ts
  tally-below e b j [] h = refl
  tally-below e b j (t ∷ ts) h =
      let here : position j ≡ t.batch_position =
        ap (λ n. position n) (omega arith)
        ∙ ap (λ (x : RoutedToken). x.batch_position) (h 0 (omega arith)) in
      let rest : tally (λ k. k == e) (below position b) (j + 1) ts ≡ ahead e b ts =
        tally-below e b (j + 1) ts
          (λ k g. ap (λ n. get_or tokens n no_token) (omega arith) ∙ h (suc k) (omega arith)) in
      ground arith

-- The capacity ceiling. If no other token has both the primary expert and the batch position of the
-- token at index `i`, then that token is sent to its primary expert if fewer than expert_capacity tokens
-- with the same primary expert have a smaller batch position, and to its secondary expert otherwise,
-- in whatever order the tokens are given.
pub assign_effective_experts_lem :
    (tokens : List RoutedToken) (expert_capacity i : ℕ)
    → i < length tokens
    → ((j : ℕ)
        → j < length tokens
        → (get_or tokens j no_token).primary_expert ≡ (get_or tokens i no_token).primary_expert
        → (get_or tokens j no_token).batch_position ≡ (get_or tokens i no_token).batch_position
        → j ≡ i)
    → let t = get_or tokens i no_token in
      get_or (assign_effective_experts tokens expert_capacity) i 0 ≡ (
        if ltb (ahead t.primary_expert t.batch_position tokens) expert_capacity
        then t.primary_expert
        else t.secondary_expert)
unfolding assign_effective_experts
assign_effective_experts_lem tokens expert_capacity i h alone =
    let e : ℕ = primary tokens expert_capacity i in
    let groups : List (ℕ × List ℕ) = index_by_primary 0 tokens [] in
    let sums : (p : ℕ → Bool) (w : ℕ → ℕ) → total p w groups ≡ 0 + tally p w 0 tokens =
      λ p w. total-index_by_primary p w 0 tokens [] in
    let own : (j : ℕ) → 0 + j ≡ j = λ j. omega arith in
    assign_groups_lem tokens expert_capacity i e groups (replicate (length tokens) 0)
      (omega (arith, length-replicate (length tokens) (let z : ℕ = 0 in z)))
      (keyed-index_by_primary e 0 tokens [] (omega arith))
      (ground (
        arith,
        sums (λ k. k == e) (indicator i),
        tally-indicator (λ k. k == e) i 0 i tokens (own i),
      ))
      (ground (
        arith,
        sums (λ k. not (k == e)) (indicator i),
        tally-indicator (λ k. not (k == e)) i 0 i tokens (own i),
      ))
      (λ j m p.
        let counted = tally-indicator (λ k. k == e) j 0 j tokens (own j) in
        let summed = sums (λ k. k == e) (indicator j) in alone j (ground arith) (ground arith) p)
    ∙ ap (λ n. effective tokens expert_capacity n i)
        (omega (
          arith,
          sums (λ k. k == e)
              (below (position tokens expert_capacity) (position tokens expert_capacity i)),
          tally-below tokens expert_capacity e (position tokens expert_capacity i) 0 tokens
              (λ k g. ap (λ n. get_or tokens n no_token) (omega arith)),
        ))
