-- ===== src/Router/Nodes.antt =====
-- A transport for tests: a node answers as a worker does, or is dead.
use aether_mo_e.Common.{
  ℕ, Bool, true, false, List, [], ◌∷◌, ◌++◌, if◌then◌else◌, Result, ok, err, peer_closed,
}
use aether_mo_e.RoutedToken.{RoutedToken}
use aether_mo_e.Serialization.{decode_token_batch}
use aether_mo_e.Worker.{reply}
use aether_mo_e.Collective.{ICollectiveTransport}
use aether_mo_e.Router.Batch.{Router}

pub record Node : Type 0 where
  pub shard_id : ℕ
  pub is_alive : Bool
  pub outbox : List (List ℕ)

unfoldable pub node_send : List ℕ → Node → Result (Unit {0}) × Node
unfolding reply decode_token_batch
node_send message n =
    if n.is_alive
    then elim (decode_token_batch message) [
      | err e ↦ (ok tt, record n { is_alive = false })
      | ok tokens ↦ (ok tt, record n { outbox = n.outbox ++ (reply n.shard_id tokens ∷ []) })
    ]
    else (err peer_closed, n)

unfoldable pub node_receive : Node → Result (List ℕ) × Node
node_receive n = elim n.outbox [
  | [] ↦ (err peer_closed, n)
  | m ∷ ms ↦ (ok m, record n { outbox = ms })
]

abbrev pub nodes : ICollectiveTransport
nodes = record { Link = Node; send = node_send; receive = node_receive }

-- Experts 5 and 6 on shards 1 and 0, and two tokens for each expert.
abbrev pub router : Bool → Router Node
router alive = record {
  expert_to_shard = (5, 1) ∷ (6, 0) ∷ [];
  shard_transports =
      (0, record { shard_id = 0; is_alive = true; outbox = [] })
      ∷ (1, record { shard_id = 1; is_alive = alive; outbox = [] })
      ∷ [];
  expert_capacity = 2;
  unhealthy_shards = [];
}

abbrev pub token : ℕ → RoutedToken
token i = record {
  token_id = 70;
  batch_position = i;
  primary_expert = 5;
  secondary_expert = 6;
  payload = [];
}

abbrev pub tokens : List RoutedToken
tokens = token 2 ∷ token 0 ∷ token 1 ∷ []
