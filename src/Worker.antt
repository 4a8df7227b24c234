-- ===== src/Worker.antt =====
-- src/orchestration/worker_shard.hpp: the loop of a worker shard.
-- The transport is an argument, a list with one entry for each round of the loop. A loop that has
-- used up the list still runs.
pub mod Session
mod Tests
use aether_mo_e.Common.{
  ℕ, ◌+◌, ◌%◌, ◌^◌, Bool, false, List, [], ◌∷◌, ◌++◌, map, Option, none, some, if◌then◌else◌, Error,
  ok, err,
}
use aether_mo_e.RoutedToken.{RoutedToken, RoutedResult, no_reason}
use aether_mo_e.Serialization.{decode_token_batch, encode_result_batch}

-- Unary minus on a float flips its highest bit.
abbrev pub negate : ℕ → ℕ
negate f = (f + 2 ^ 31) % 2 ^ 32

pub process_token_placeholder : RoutedToken → ℕ → RoutedResult
process_token_placeholder t shard_id = record {
  token_id = t.token_id;
  batch_position = t.batch_position;
  processed_by_shard = shard_id;
  effective_expert = 0;
  payload = map negate t.payload;
  failed = false;
  failure_reason = no_reason;
}

-- What the transport does in a round: the message that `receive` returns, none if it throws, and
-- whether `send` returns.
pub record Round : Type 0 where
  pub received : Option (List ℕ)
  pub is_sent : Bool

-- What a worker has done: `batches_processed`, and the messages that `send` has taken.
pub record Served : Type 0 where
  pub batches_processed : ℕ
  pub replies : List (List ℕ)

-- How far the loop is: in a later round, left by `break`, or left by an exception that it does not
-- catch.
pub data Loop : Type 0 where
  running : Served → Loop
  ended : Served → Loop
  escaped : Error → Loop

unfoldable pub reply : ℕ → List RoutedToken → List ℕ
unfolding process_token_placeholder
reply shard_id tokens = encode_result_batch (map (λ t. process_token_placeholder t shard_id) tokens)

unfoldable pub run_worker_loop : ℕ → List Round → Served → Loop
run_worker_loop shard_id [] s = running s
run_worker_loop shard_id (r ∷ rs) s = elim r.received [
  | none ↦ ended s
  | some raw ↦ elim (decode_token_batch raw) [
    | err e ↦ escaped e
    | ok tokens ↦
        let more = run_worker_loop shard_id rs (record {
          batches_processed = s.batches_processed + 1;
          replies = s.replies ++ (reply shard_id tokens ∷ []);
        }) in
        if r.is_sent then more else ended s
  ]
]
