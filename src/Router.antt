-- ===== src/Router.antt =====
-- src/orchestration/router.hpp: how the results of a batch are put back in order.
pub mod Reassembly
pub mod Assignment
pub mod Batch
pub mod Tolerant
pub mod Nodes
mod Tests
use aether_mo_e.Common.{
  ℕ, zero, suc, ◌+◌, Bool, true, false, List, [], ◌∷◌, ltb, if◌then◌else◌, get_or, set, replicate,
  Result, ok, err, ◌>>=◌, position_out_of_range, duplicate_result, missing_result_at,
}
use aether_mo_e.RoutedToken.{RoutedResult, no_reason}

-- An element of `std::vector<RoutedResult>(n)`.
abbrev pub blank : RoutedResult
blank = record {
  token_id = 0;
  batch_position = 0;
  processed_by_shard = 0;
  effective_expert = 0;
  payload = [];
  failed = false;
  failure_reason = no_reason;
}

-- The vectors `ordered` and `filled`.
pub record Slots : Type 0 where
  pub ordered : List RoutedResult
  pub filled : List Bool

-- The first loop of `reassemble`: every result goes to its batch position.
pub place_all : ℕ → Slots → List RoutedResult → Result Slots
place_all n s [] = ok s
place_all n s (r ∷ rs) =
    if ltb r.batch_position n
    then (let i : ℕ = r.batch_position in
        if get_or s.filled i false
        then err (duplicate_result i)
        else place_all n (record { ordered = set s.ordered i r; filled = set s.filled i true }) rs)
    else err (position_out_of_range r.batch_position n)

-- The second loop, from index `i` on.
pub check_filled : ℕ → List Bool → Result (Unit {0})
check_filled i [] = ok tt
check_filled i (b ∷ bs) = if b then check_filled (i + 1) bs else err (missing_result_at i)

unfoldable pub reassemble : ℕ → List RoutedResult → Result (List RoutedResult)
unfolding place_all check_filled
reassemble n flat_results =
    place_all n (record { ordered = replicate n blank; filled = replicate n false }) flat_results
    >>= λ s. check_filled 0 s.filled >>= λ done. ok s.ordered
