-- ===== src/Router/Assignment/Ranks.antt =====
-- Who keeps the primary expert under the capacity ceiling.
use aether_mo_e.Common.{
  sort_by, ℕ, ◌+◌, ◌≡◌, refl, ◌∙◌, List, [], ◌∷◌, length, get_or, set, replicate, length-set,
  length-replicate, ltb, if◌then◌else◌,
}
use aether_mo_e.RoutedToken.{RoutedToken}
use aether_mo_e.Router.Assignment.{
  assign_ranks, assign_groups, assign_effective_experts, index_by_primary, no_token,
}

pub length-assign_ranks :
    (tokens : List RoutedToken) (cap rank : ℕ) (idxs es : List ℕ)
    → length (assign_ranks tokens cap rank idxs es) ≡ length es
unfolding assign_ranks
length-assign_ranks tokens cap rank [] es = refl
length-assign_ranks tokens cap rank (i ∷ idxs) es =
    let e : ℕ =
      if ltb rank cap
      then (get_or tokens i no_token).primary_expert
      else (get_or tokens i no_token).secondary_expert in
    length-assign_ranks tokens cap (rank + 1) idxs (set es i e) ∙ length-set es i e

length-assign_groups :
    (tokens : List RoutedToken) (cap : ℕ) (groups : List (ℕ × List ℕ)) (es : List ℕ)
    → length (assign_groups tokens cap groups es) ≡ length es
unfolding assign_groups
length-assign_groups tokens cap [] es = refl
length-assign_groups tokens cap ((k, idxs) ∷ groups) es =
    let sorted : List ℕ = sort_by (λ i. (get_or tokens i no_token).batch_position) idxs in
    length-assign_groups tokens cap groups (assign_ranks tokens cap 0 sorted es)
    ∙ length-assign_ranks tokens cap 0 sorted es

pub length-assign_effective_experts :
    (tokens : List RoutedToken) (cap : ℕ)
    → length (assign_effective_experts tokens cap) ≡ length tokens
unfolding assign_effective_experts
length-assign_effective_experts tokens cap =
    length-assign_groups tokens cap (index_by_primary 0 tokens []) (replicate (length tokens) 0)
    ∙ length-replicate (length tokens) 0
