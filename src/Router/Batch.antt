-- ===== src/Router/Batch.antt =====
-- `route_batch` of src/orchestration/router.hpp. The loop over an unordered_map runs in the order in
-- which the keys were put in.
pub mod Order
mod Tests
use aether_mo_e.Common.{
  ℕ, ◌+◌, List, [], ◌∷◌, ◌++◌, map, Option, none, some, get_or, length, Result, ok, err, Error,
  no_transport, lookup, insert,
}
use aether_mo_e.RoutedToken.{RoutedToken, RoutedResult}
use aether_mo_e.Serialization.{encode_token_batch, decode_result_batch}
use aether_mo_e.Collective.{ICollectiveTransport}
use aether_mo_e.Router.{reassemble}
use aether_mo_e.Router.Assignment.{assign_effective_experts, group_by_shard}

pub record Router (Link : Type 0) : Type 0 where
  pub expert_to_shard : List (ℕ × ℕ)
  pub shard_transports : List (ℕ × Link)
  pub expert_capacity : ℕ
  pub unhealthy_shards : List ℕ

-- A method: it returns or throws, and leaves the object in some state.
abbrev pub M : Type 0 → Type 0 → Type 0
M Link A = Router Link → Result A × Router Link

infixl 5 ◌>>=◌
abbrev pub ◌>>=◌ : {Link A B : Type 0} → M Link A → (A → M Link B) → M Link B
◌>>=◌ m f r = let (result, r') = m r in elim result [ err e ↦ (err e, r') | ok a ↦ f a r' ]

abbrev pub lift : {Link A : Type 0} → Result A → M Link A
lift m r = (m, r)

-- The `for` loop that writes `effective_expert[i]` to the result at index `i`.
abbrev pub annotate : List RoutedResult → List ℕ → List RoutedResult
annotate [] es = []
annotate (r ∷ rs) [] = r ∷ rs
annotate (r ∷ rs) (e ∷ es) = record r { effective_expert = e } ∷ annotate rs es

module _ (T : ICollectiveTransport) where
  open T use {Link}

  -- `transport_for_shard(shard_id).send(message)`
  unfoldable pub send_to : ℕ → List ℕ → M Link (Unit {0})
  send_to shard_id message r = elim (lookup shard_id r.shard_transports) [
    | none ↦ (err (no_transport shard_id), r)
    | some link ↦
        let (result, link') = T.send message link in
        (result, record r { shard_transports = insert shard_id link' r.shard_transports })
  ]

  -- `transport_for_shard(shard_id).receive()`
  unfoldable pub receive_from : ℕ → M Link (List ℕ)
  receive_from shard_id r = elim (lookup shard_id r.shard_transports) [
    | none ↦ (err (no_transport shard_id), r)
    | some link ↦
        let (result, link') = T.receive link in
        (result, record r { shard_transports = insert shard_id link' r.shard_transports })
  ]

  pub scatter : List (ℕ × List RoutedToken) → M Link (Unit {0})
  unfolding send_to
  scatter [] = lift (ok tt)
  scatter ((shard_id, group) ∷ by_shard) =
      send_to shard_id (encode_token_batch group) >>= λ sent. scatter by_shard

  pub gather : List ℕ → List RoutedResult → M Link (List RoutedResult)
  unfolding receive_from
  gather [] flat_results = lift (ok flat_results)
  gather (shard_id ∷ shards) flat_results = receive_from shard_id >>= λ raw.
      lift (decode_result_batch raw) >>= λ results. gather shards (flat_results ++ results)

  -- The last part of `route_batch`, after the gather.
  pub finish_batch : List RoutedToken → List ℕ → List RoutedResult → M Link (List RoutedResult)
  finish_batch tokens effective_expert flat_results =
      lift (reassemble (length tokens) flat_results) >>= λ ordered.
      lift (ok (annotate ordered effective_expert))

  -- The part after the grouping.
  pub exchange_batch :
      List RoutedToken → List ℕ → List (ℕ × List RoutedToken) → M Link (List RoutedResult)
  unfolding scatter gather finish_batch
  exchange_batch tokens effective_expert by_shard = scatter by_shard >>= λ sent.
      gather (map (λ group. group.0) by_shard) [] >>= λ flat_results.
      finish_batch tokens effective_expert flat_results

  pub route_batch : List RoutedToken → M Link (List RoutedResult)
  unfolding exchange_batch
  route_batch tokens r =
      let effective_expert : List ℕ = assign_effective_experts tokens r.expert_capacity in
      (lift (group_by_shard r.expert_to_shard tokens effective_expert []) >>= λ by_shard.
      exchange_batch tokens effective_expert by_shard)
        r
