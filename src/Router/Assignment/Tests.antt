-- ===== src/Router/Assignment/Tests.antt =====
-- Three tokens of expert 5, where an expert takes two.
use aether_mo_e.Common.{
  sort_by, ℕ, ◌≡◌, ◌<◌, refl, List, [], ◌∷◌, ok, err, no_shard_mapping, get_or, ltb, if◌then◌else◌,
  zero, suc, arith,
}
use aether_mo_e.RoutedToken.{RoutedToken}
use aether_mo_e.Router.Assignment.{assign_effective_experts, group_by_shard, no_token}
use aether_mo_e.Router.Assignment.Ceiling.{ahead, assign_effective_experts_lem}

abbrev token_at : ℕ → RoutedToken
token_at i = record {
  token_id = i;
  batch_position = i;
  primary_expert = 5;
  secondary_expert = 6;
  payload = [];
}

abbrev tokens : List RoutedToken
tokens = token_at 2 ∷ token_at 0 ∷ token_at 1 ∷ []

overflow : assign_effective_experts tokens 2 ≡ 6 ∷ 5 ∷ 5 ∷ []
unfolding assign_effective_experts sort_by
overflow = refl

groups :
    group_by_shard ((5, 1) ∷ (6, 0) ∷ []) tokens (6 ∷ 5 ∷ 5 ∷ []) []
    ≡ ok ((0, token_at 2 ∷ []) ∷ (1, token_at 0 ∷ token_at 1 ∷ []) ∷ [])
unfolding group_by_shard
groups = refl

unknown_expert : group_by_shard ((5, 1) ∷ []) tokens (6 ∷ 5 ∷ 5 ∷ []) [] ≡ err (no_shard_mapping 6)
unfolding group_by_shard
unknown_expert = refl

alone_at_two :
    (j : ℕ)
    → j < 3
    → (get_or tokens j no_token).primary_expert ≡ 5
    → (get_or tokens j no_token).batch_position ≡ 2
    → j ≡ 0
alone_at_two zero h p q = refl
alone_at_two (suc zero) h p q = absurd (omega arith)
alone_at_two (suc (suc zero)) h p q = absurd (omega arith)
alone_at_two (suc (suc (suc j))) h p q = absurd (omega arith)

assign_effective_experts_lem_example :
    get_or (assign_effective_experts tokens 2) 0 0 ≡ (if ltb (ahead 5 2 tokens) 2 then 5 else 6)
assign_effective_experts_lem_example =
    assign_effective_experts_lem tokens 2 0 (omega arith) alone_at_two
