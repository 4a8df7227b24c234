-- ===== src/Router/Batch/Tests.antt =====
-- Three tokens of one expert that takes two.
use aether_mo_e.Common.{
  sort_by, ℕ, ◌≡◌, refl, true, false, peer_closed, lookup, insert, List, [], ◌∷◌, ok, err, get_or,
  length, arith,
}
use aether_mo_e.RoutedToken.{RoutedResult, no_reason}
use aether_mo_e.Serialization.{
  encode_token_batch, decode_token_batch, encode_result_batch, decode_result_batch,
}
use aether_mo_e.Router.{blank, reassemble}
use aether_mo_e.Router.Assignment.{assign_effective_experts, group_by_shard}
use aether_mo_e.Router.Nodes.{node_send, node_receive, nodes, router, tokens}
use aether_mo_e.Router.Batch.{route_batch}
use aether_mo_e.Router.Batch.Order.{route_batch_ordered}

abbrev result : ℕ → ℕ → ℕ → RoutedResult
result position shard expert = record {
  token_id = 70;
  batch_position = position;
  processed_by_shard = shard;
  effective_expert = expert;
  payload = [];
  failed = false;
  failure_reason = no_reason;
}

-- Position 2 went to expert 6 on shard 0, but it is position 0 that is annotated with expert 6.
abbrev results : List RoutedResult
results = result 0 1 6 ∷ result 1 1 5 ∷ result 2 0 5 ∷ []

route_batch_results : (route_batch nodes tokens (router true)).0 ≡ ok results
unfolding route_batch assign_effective_experts sort_by group_by_shard node_send node_receive
    encode_token_batch decode_token_batch encode_result_batch decode_result_batch reassemble lookup
    insert
route_batch_results = refl

route_batch_dead_shard : (route_batch nodes tokens (router false)).0 ≡ err peer_closed
unfolding route_batch assign_effective_experts sort_by group_by_shard node_send node_receive
    encode_token_batch decode_token_batch encode_result_batch decode_result_batch reassemble lookup
    insert
route_batch_dead_shard = refl

route_batch_ordered_example :
    (length results ≡ 3)
    × ((get_or results 2 blank).batch_position ≡ 2)
    × ((get_or results 2 blank).effective_expert ≡ get_or (assign_effective_experts tokens 2) 2 0)
route_batch_ordered_example =
    route_batch_ordered nodes tokens (router true) 2 route_batch_results (omega arith)
