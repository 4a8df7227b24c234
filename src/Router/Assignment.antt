-- ===== src/Router/Assignment.antt =====
-- `assign_effective_experts` and `shard_for_expert` of src/orchestration/router.hpp, and how
-- `route_batch` groups the tokens. A map is an association list, and its loop runs in the order in
-- which the keys were put in; the order of an unordered_map is not specified.
pub mod Ranks
pub mod Tallies
pub mod Places
pub mod Ceiling
mod Tests
use aether_mo_e.Common.{
  sort_by, ℕ, ◌+◌, List, [], ◌∷◌, ◌++◌, Option, none, some, ◌==◌, ltb, if◌then◌else◌, get_or, set,
  length, replicate, Result, ok, err, ◌>>=◌, no_shard_mapping,
}
use aether_mo_e.RoutedToken.{RoutedToken}

-- `map[key].push_back(v)`.
unfoldable pub push_at {ℓ} : {A : Type ℓ} → ℕ → A → List (ℕ × List A) → List (ℕ × List A)
push_at key v [] = (key, v ∷ []) ∷ []
push_at key v ((k, vs) ∷ groups) =
    let rest = push_at key v groups in
    if k == key then (k, vs ++ (v ∷ [])) ∷ groups else (k, vs) ∷ rest

-- `indices_by_primary`, from index `i` on.
pub index_by_primary : ℕ → List RoutedToken → List (ℕ × List ℕ) → List (ℕ × List ℕ)
unfolding push_at
index_by_primary i [] groups = groups
index_by_primary i (t ∷ ts) groups = index_by_primary (i + 1) ts (push_at t.primary_expert i groups)

abbrev pub no_token : RoutedToken
no_token = record {
  token_id = 0;
  batch_position = 0;
  primary_expert = 0;
  secondary_expert = 0;
  payload = [];
}

-- The loop over the ranks of one group.
pub assign_ranks : List RoutedToken → ℕ → ℕ → List ℕ → List ℕ → List ℕ
assign_ranks tokens expert_capacity rank [] effective_expert = effective_expert
assign_ranks tokens expert_capacity rank (idx ∷ indices) effective_expert =
    let t : RoutedToken = get_or tokens idx no_token in
    assign_ranks tokens expert_capacity (rank + 1) indices (
      set effective_expert idx
        (if ltb rank expert_capacity then t.primary_expert else t.secondary_expert))

pub assign_groups : List RoutedToken → ℕ → List (ℕ × List ℕ) → List ℕ → List ℕ
unfolding assign_ranks
assign_groups tokens expert_capacity [] effective_expert = effective_expert
assign_groups tokens expert_capacity ((expert, indices) ∷ groups) effective_expert =
    assign_groups tokens expert_capacity groups (
      assign_ranks tokens expert_capacity 0
        (sort_by (λ i. (get_or tokens i no_token).batch_position) indices) effective_expert)

unfoldable pub assign_effective_experts : List RoutedToken → ℕ → List ℕ
unfolding assign_groups index_by_primary
assign_effective_experts tokens expert_capacity =
    assign_groups tokens expert_capacity (index_by_primary 0 tokens [])
      (replicate (length tokens) 0)

unfoldable pub shard_for_expert : List (ℕ × ℕ) → ℕ → Result ℕ
shard_for_expert [] expert_id = err (no_shard_mapping expert_id)
shard_for_expert ((expert, shard) ∷ more) expert_id =
    let rest = shard_for_expert more expert_id in if expert == expert_id then ok shard else rest

-- `by_shard`: the tokens behind their effective experts.
unfoldable pub group_by_shard :
    List (ℕ × ℕ)
    → List RoutedToken
    → List ℕ
    → List (ℕ × List RoutedToken)
    → Result (List (ℕ × List RoutedToken))
unfolding shard_for_expert push_at
group_by_shard expert_to_shard (t ∷ ts) (e ∷ es) by_shard =
    shard_for_expert expert_to_shard e >>= λ shard.
    group_by_shard expert_to_shard ts es (push_at shard t by_shard)
group_by_shard expert_to_shard [] es by_shard = ok by_shard
group_by_shard expert_to_shard (t ∷ ts) [] by_shard = ok by_shard
