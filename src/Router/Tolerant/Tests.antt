-- ===== src/Router/Tolerant/Tests.antt =====
-- A batch of three tokens, on live shards and with one dead shard.
use aether_mo_e.Common.{
  sort_by, ℕ, ◌≡◌, refl, ◌⊎◌, true, false, List, [], ◌∷◌, map, Result, ok, err, Returns, get_or,
  length, arith, peer_closed, lookup, insert, All, Bool,
}
use aether_mo_e.RoutedToken.{RoutedResult, FailureReason, no_reason, thrown, marked_unhealthy}
use aether_mo_e.Serialization.{
  encode_token_batch, decode_token_batch, encode_result_batch, decode_result_batch,
}
use aether_mo_e.Router.{blank}
use aether_mo_e.Router.Assignment.{push_at, assign_effective_experts, shard_for_expert}
use aether_mo_e.Router.Batch.{Router, send_to, receive_from}
use aether_mo_e.Router.Nodes.{Node, node_send, node_receive, nodes, router, tokens}
use aether_mo_e.Router.Tolerant.{
  index_by_shard, fail_group, fill_missing, place_answers, effective_by_position,
  route_batch_tolerant, is_shard_unhealthy, unhealthy_shard_count,
}
use aether_mo_e.Router.Tolerant.Groups.{IsMapped}
use aether_mo_e.Router.Tolerant.Answers.{IsFailure, IsAnswer}
use aether_mo_e.Router.Tolerant.Accounting.{IsNumbered, route_batch_tolerant_accounts}

abbrev shown : Result (List RoutedResult) → List (ℕ × ℕ × Bool × FailureReason)
shown (ok rs) = map (λ r. (r.batch_position, r.effective_expert, r.failed, r.failure_reason)) rs
shown (err e) = []

all_alive :
    shown (route_batch_tolerant nodes tokens (router true)).0
    ≡ (0, 5, false, no_reason) ∷ (1, 5, false, no_reason) ∷ (2, 6, false, no_reason) ∷ []
unfolding route_batch_tolerant assign_effective_experts sort_by push_at shard_for_expert send_to
    receive_from node_send node_receive encode_token_batch decode_token_batch encode_result_batch
    decode_result_batch lookup insert index_by_shard fail_group fill_missing place_answers
    effective_by_position
all_alive = refl

-- The first batch finds out that shard 1 is dead; the second does not ask it.
abbrev later : Router Node
later = (route_batch_tolerant nodes tokens (router false)).1

one_dead :
    (shown (route_batch_tolerant nodes tokens (router false)).0
      ≡ (0, 5, true, thrown peer_closed)
        ∷ (1, 5, true, thrown peer_closed)
        ∷ (2, 6, false, no_reason)
        ∷ [])
    × (shown (route_batch_tolerant nodes tokens later).0
        ≡ (0, 5, true, marked_unhealthy 1)
          ∷ (1, 5, true, marked_unhealthy 1)
          ∷ (2, 6, false, no_reason)
          ∷ [])
    × (is_shard_unhealthy 1 later ≡ true)
    × (unhealthy_shard_count later ≡ 1)
unfolding route_batch_tolerant assign_effective_experts sort_by push_at shard_for_expert send_to
    receive_from node_send node_receive encode_token_batch decode_token_batch encode_result_batch
    decode_result_batch lookup insert index_by_shard fail_group fill_missing place_answers
    effective_by_position is_shard_unhealthy unhealthy_shard_count
one_dead = (refl, refl, refl, refl)

tokens-IsNumbered : IsNumbered tokens
tokens-IsNumbered pos = ground arith

experts-IsMapped : All (IsMapped (router false).expert_to_shard) (assign_effective_experts tokens 2)
unfolding assign_effective_experts sort_by shard_for_expert push_at
experts-IsMapped = (tt, (tt, (tt, tt)))

route_batch_tolerant_accounts_example :
    Returns (route_batch_tolerant nodes tokens (router false)).0 (λ out.
      (length out ≡ 3)
      × ((get_or out 0 blank).batch_position ≡ 0)
      × (IsFailure tokens 0 (get_or out 0 blank) ⊎ IsAnswer nodes (get_or out 0 blank)))
route_batch_tolerant_accounts_example =
    route_batch_tolerant_accounts nodes tokens (router false) 0 tokens-IsNumbered experts-IsMapped
      (omega arith)
