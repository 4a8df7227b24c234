-- ===== src/Router/Tolerant.antt =====
-- `route_batch_tolerant` of src/orchestration/router.hpp. The loop over an unordered_map runs in the
-- order in which the keys were put in. A write beyond the end of `ordered` or `filled` is left out.
pub mod Slotting
pub mod Groups
pub mod Answers
pub mod Accounting
mod Tests
use aether_mo_e.Common.{
  ℕ, ◌+◌, Bool, true, false, not, ◌&&◌, ◌==◌, ltb, if◌then◌else◌, List, [], ◌∷◌, ◌++◌, map, Option,
  none, some, get_or, set, replicate, length, Result, ok, err, Error, lookup, insert,
}
use aether_mo_e.RoutedToken.{
  RoutedToken, RoutedResult, FailureReason, marked_unhealthy, missing_result, thrown,
}
use aether_mo_e.Serialization.{encode_token_batch, decode_result_batch}
use aether_mo_e.Collective.{ICollectiveTransport}
use aether_mo_e.Router.{blank, Slots}
use aether_mo_e.Router.Assignment.{no_token, push_at, assign_effective_experts, shard_for_expert}
use aether_mo_e.Router.Batch.{Router, M, ◌>>=◌, lift, send_to, receive_from}

-- `indices_by_shard`, from index `i` on.
pub index_by_shard : List (ℕ × ℕ) → ℕ → List ℕ → List (ℕ × List ℕ) → Result (List (ℕ × List ℕ))
unfolding shard_for_expert push_at
index_by_shard expert_to_shard i [] by_shard = ok by_shard
index_by_shard expert_to_shard i (e ∷ es) by_shard = elim (shard_for_expert expert_to_shard e) [
  | err x ↦ err x
  | ok shard ↦ index_by_shard expert_to_shard (i + 1) es (push_at shard i by_shard)
]

abbrev pub contains : ℕ → List ℕ → Bool
contains k [] = false
contains k (j ∷ js) = if k == j then true else contains k js

unfoldable pub is_shard_unhealthy : {Link : Type 0} → ℕ → Router Link → Bool
is_shard_unhealthy shard_id r = contains shard_id r.unhealthy_shards

pub unhealthy_shard_count : {Link : Type 0} → Router Link → ℕ
unhealthy_shard_count r = length r.unhealthy_shards

-- `unhealthy_shards_.insert(shard_id)`
unfoldable pub mark_unhealthy : {Link : Type 0} → ℕ → Router Link → Router Link
unfolding is_shard_unhealthy
mark_unhealthy shard_id r =
    if is_shard_unhealthy shard_id r
    then r
    else record r { unhealthy_shards = shard_id ∷ r.unhealthy_shards }

-- What the vectors hold is set at one position.
abbrev pub put_slot : Slots → RoutedResult → Slots
put_slot s r = record {
  ordered = set s.ordered r.batch_position r;
  filled = set s.filled r.batch_position true;
}

abbrev pub no_slots : ℕ → Slots
no_slots n = record { ordered = replicate n blank; filled = replicate n false }

abbrev pub token_at : List RoutedToken → ℕ → RoutedToken
token_at tokens i = get_or tokens i no_token

module _ (tokens : List RoutedToken) (effective_expert : List ℕ) where
  -- The result for a token that has none.
  abbrev pub failure : FailureReason → ℕ → RoutedResult
  failure cause i = record blank {
    token_id = (token_at tokens i).token_id;
    batch_position = (token_at tokens i).batch_position;
    effective_expert = get_or effective_expert i 0;
    failed = true;
    failure_reason = cause;
  }

  pub fail_group : FailureReason → List ℕ → Slots → Slots
  fail_group cause [] s = s
  fail_group cause (i ∷ idxs) s = fail_group cause idxs (put_slot s (failure cause i))

  -- `pos_to_effective`
  pub effective_by_position : List ℕ → List (ℕ × ℕ) → List (ℕ × ℕ)
  effective_by_position [] dict = dict
  effective_by_position (i ∷ idxs) dict =
      effective_by_position idxs
        (insert (token_at tokens i).batch_position (get_or effective_expert i 0) dict)

  -- A result as it is kept, with the expert that is known for its position.
  abbrev pub annotated : List (ℕ × ℕ) → RoutedResult → RoutedResult
  annotated dict r = elim (lookup r.batch_position dict) [
    | none ↦ r
    | some e ↦ record r { effective_expert = e }
  ]

  pub place_answers : List (ℕ × ℕ) → List RoutedResult → Slots → Slots
  place_answers dict [] s = s
  place_answers dict (r ∷ rs) s = place_answers dict rs (
      if ltb r.batch_position (length s.filled) && not (get_or s.filled r.batch_position false)
      then put_slot s (annotated dict r)
      else s)

  pub fill_missing : ℕ → List ℕ → Slots → Slots
  fill_missing shard_id [] s = s
  fill_missing shard_id (i ∷ idxs) s = fill_missing shard_id idxs (
      if get_or s.filled (token_at tokens i).batch_position false
      then s
      else put_slot s (failure (missing_result shard_id) i))

module _ (T : ICollectiveTransport) where
  open T use {Link}

  -- The `try` block.
  unfoldable pub exchange : ℕ → List RoutedToken → M Link (List RoutedResult)
  unfolding send_to receive_from
  exchange shard_id group = send_to T shard_id (encode_token_batch group) >>= λ sent.
      receive_from T shard_id >>= λ raw. lift (decode_result_batch raw)

  -- What follows the `try` block.
  unfoldable pub settle_shard :
      List RoutedToken
      → List ℕ
      → ℕ
      → List ℕ
      → Slots
      → Result (List RoutedResult) × Router Link
      → Slots × Router Link
  unfolding mark_unhealthy
  settle_shard tokens effective_expert shard_id idxs s (err e, r) =
      (fail_group tokens effective_expert (thrown e) idxs s, mark_unhealthy shard_id r)
  settle_shard tokens effective_expert shard_id idxs s (ok results, r) = (
    fill_missing tokens effective_expert shard_id idxs (
        place_answers tokens effective_expert
          (effective_by_position tokens effective_expert idxs []) results s),
    r,
  )

  -- The body of the loop over the shards.
  unfoldable pub serve_shard :
      List RoutedToken → List ℕ → ℕ → List ℕ → Slots × Router Link → Slots × Router Link
  unfolding exchange settle_shard is_shard_unhealthy
  serve_shard tokens effective_expert shard_id idxs (s, r) =
      if is_shard_unhealthy shard_id r
      then (fail_group tokens effective_expert (marked_unhealthy shard_id) idxs s, r)
      else settle_shard tokens effective_expert shard_id idxs s
          (exchange shard_id (map (λ i. token_at tokens i) idxs) r)

  unfoldable pub serve_shards :
      List RoutedToken → List ℕ → List (ℕ × List ℕ) → Slots × Router Link → Slots × Router Link
  unfolding serve_shard
  serve_shards tokens effective_expert [] state = state
  serve_shards tokens effective_expert ((shard_id, idxs) ∷ by_shard) state =
      serve_shards tokens effective_expert by_shard
        (serve_shard tokens effective_expert shard_id idxs state)

  unfoldable pub route_batch_tolerant : List RoutedToken → M Link (List RoutedResult)
  unfolding serve_shards
  route_batch_tolerant tokens r =
      let effective_expert : List ℕ = assign_effective_experts tokens r.expert_capacity in
      elim (index_by_shard r.expert_to_shard 0 effective_expert []) [
        | err e ↦ (err e, r)
        | ok by_shard ↦
            let (s, r') =
              serve_shards tokens effective_expert by_shard (no_slots (length tokens), r) in
            (ok s.ordered, r')
      ]
