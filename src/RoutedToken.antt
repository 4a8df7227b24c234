-- ===== src/RoutedToken.antt =====
-- src/orchestration/routed_token.hpp: what goes to a worker shard and what comes back.
-- A float is its 32-bit pattern.
use aether_mo_e.Common.{ℕ, Bool, List, Error}

pub record RoutedToken : Type 0 where
  pub token_id : ℕ
  pub batch_position : ℕ
  pub primary_expert : ℕ
  pub secondary_expert : ℕ
  pub payload : List ℕ

-- Why a token has no result. The constructors stand for the texts of `failure_reason`.
pub data FailureReason : Type 0 where
  -- the empty string
  no_reason : FailureReason
  -- "shard … marked unhealthy from a previous failure …"
  marked_unhealthy : ℕ → FailureReason
  -- "missing result from shard …"
  missing_result : ℕ → FailureReason
  -- `e.what()` of what the transport or the decoder threw
  thrown : Error → FailureReason

pub record RoutedResult : Type 0 where
  pub token_id : ℕ
  pub batch_position : ℕ
  pub processed_by_shard : ℕ
  pub effective_expert : ℕ
  pub payload : List ℕ
  pub failed : Bool
  pub failure_reason : FailureReason
