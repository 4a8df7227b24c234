-- ===== src/Router/Tests.antt =====
-- Batches of two tokens put back in order.
use aether_mo_e.Common.{
  ℕ, ◌+◌, ◌≡◌, refl, [], ◌∷◌, arith, ok, err, missing_result_at, duplicate_result,
  position_out_of_range, false, Returns, get_or, length,
}
use aether_mo_e.RoutedToken.{RoutedResult, no_reason}
use aether_mo_e.Router.{blank, reassemble}
use aether_mo_e.Router.Reassembly.{IsComplete, result_for, reassemble_complete, reassemble_sound}

abbrev result_at : ℕ → RoutedResult
result_at i = record {
  token_id = 40 + i;
  batch_position = i;
  processed_by_shard = i;
  effective_expert = i;
  payload = 7 ∷ [];
  failed = false;
  failure_reason = no_reason;
}

reassemble_swapped :
    reassemble 2 (result_at 1 ∷ result_at 0 ∷ []) ≡ ok (result_at 0 ∷ result_at 1 ∷ [])
unfolding reassemble
reassemble_swapped = refl

reassemble_missing : reassemble 2 (result_at 1 ∷ []) ≡ err (missing_result_at 0)
unfolding reassemble
reassemble_missing = refl

reassemble_repeated : reassemble 2 (result_at 1 ∷ result_at 1 ∷ []) ≡ err (duplicate_result 1)
unfolding reassemble
reassemble_repeated = refl

reassemble_beyond : reassemble 2 (result_at 2 ∷ []) ≡ err (position_out_of_range 2 2)
unfolding reassemble
reassemble_beyond = refl

swapped-IsComplete : IsComplete 2 (result_at 1 ∷ result_at 0 ∷ [])
swapped-IsComplete i = ground arith

reassemble_complete_example : Returns (reassemble 2 (result_at 1 ∷ result_at 0 ∷ [])) (λ out.
    (length out ≡ 2)
    × (get_or out 1 blank ≡ result_for 1 (result_at 1 ∷ result_at 0 ∷ []) blank)
    × ((get_or out 1 blank).batch_position ≡ 1))
reassemble_complete_example =
    reassemble_complete 2 (result_at 1 ∷ result_at 0 ∷ []) 1 swapped-IsComplete (omega arith)

reassemble_sound_example : IsComplete 2 (result_at 1 ∷ result_at 0 ∷ [])
reassemble_sound_example = reassemble_sound 2 (result_at 1 ∷ result_at 0 ∷ []) reassemble_swapped
