-- ===== src/Router/Tolerant/Accounting.antt =====
-- Every token of a batch gets one result from `route_batch_tolerant`, whatever the transports do.
use native.Mathlib.Decide.{ℕ_discrete}
use aether_mo_e.Common.{
  ℕ, zero, suc, ◌<◌, ◌≡◌, refl, sym, subst, true, false, ltb, if◌then◌else◌, List, [], ◌∷◌, map,
  get_or, length, All, arith, Bool-cases, inl, inr, count, Result, ok, err, Returns,
  length-replicate, get_or-replicate, ◌⊎◌,
}
use aether_mo_e.RoutedToken.{RoutedToken, RoutedResult, FailureReason, marked_unhealthy, thrown}
use aether_mo_e.Collective.{ICollectiveTransport}
use aether_mo_e.Router.{blank, Slots}
use aether_mo_e.Router.Assignment.{assign_effective_experts}
use aether_mo_e.Router.Assignment.Ranks.{length-assign_effective_experts}
use aether_mo_e.Router.Batch.{Router}
use aether_mo_e.Router.Tolerant.{
  token_at, failure, is_shard_unhealthy, exchange, settle_shard, serve_shard, serve_shards,
  no_slots, route_batch_tolerant, effective_by_position, place_answers,
}
use aether_mo_e.Router.Tolerant.Slotting.{
  is_filled, IsTidy, Covers, Covers-after, InRange, fail_group-Covers, place_answers-Covers,
  fill_missing-Covers,
}
use aether_mo_e.Router.Tolerant.Groups.{
  AllGroups, index_by_shard-AllGroups, IsMapped, index_by_shard_total,
}
use aether_mo_e.Router.Tolerant.Answers.{
  IsFailure, Heard, IsAnswer, Good, All-get_or, IfOk, exchange-IfOk,
}

All-imp : {P Q : ℕ → Type 0} → ((x : ℕ) → P x → Q x) → (xs : List ℕ) → All P xs → All Q xs
All-imp f [] h = tt
All-imp f (x ∷ xs) h = (f x h.0, All-imp f xs h.1)

module _ (T : ICollectiveTransport) (n : ℕ) (tokens : List RoutedToken) (es : List ℕ) where
  open T use {Link}

  fails :
      (cause : FailureReason) (i : ℕ)
      → Good T tokens (token_at tokens i).batch_position (failure tokens es cause i)
  fails cause i = inl (i, refl, refl, refl)

  answers :
      (rs : List RoutedResult)
      → Heard T rs
      → All (λ r. (e : ℕ) → Good T tokens r.batch_position (record r { effective_expert = e })) rs
  answers rs heard =
      All-get_or (λ r. (e : ℕ) → Good T tokens r.batch_position (record r { effective_expert = e }))
        rs (λ k l e. inr (rs, heard, (k, l, refl)))

  settle_shard-Covers :
      (shard_id : ℕ) (idxs : List ℕ) (s : Slots)
      (outcome : Result (List RoutedResult) × Router Link)
      → IsTidy (Good T tokens) n s
      → InRange n tokens idxs
      → IfOk T (Heard T) outcome
      → Covers (Good T tokens) n tokens idxs s (settle_shard T tokens es shard_id idxs s outcome).0
  unfolding settle_shard
  settle_shard-Covers shard_id idxs s (err e, r) v h heard =
      fail_group-Covers n tokens es fails (thrown e) idxs s v h
  settle_shard-Covers shard_id idxs s (ok results, r) v h heard =
      let dict : List (ℕ × ℕ) = effective_by_position tokens es idxs [] in
      let first = place_answers-Covers n tokens es fails dict results s v (answers results heard) in
      Covers-after n tokens idxs s (place_answers tokens es dict results s) _ first.keeps (
        fill_missing-Covers n tokens es fails shard_id idxs (place_answers tokens es dict results s)
          first.tidy h)

  serve_shard-Covers :
      (shard_id : ℕ) (idxs : List ℕ) (s : Slots) (r : Router Link)
      → IsTidy (Good T tokens) n s
      → InRange n tokens idxs
      → Covers (Good T tokens) n tokens idxs s (serve_shard T tokens es shard_id idxs (s, r)).0
  unfolding serve_shard
  serve_shard-Covers shard_id idxs s r v h = elim (Bool-cases (is_shard_unhealthy shard_id r)) [
    | inl e ↦ rw e (fail_group-Covers n tokens es fails (marked_unhealthy shard_id) idxs s v h)
    | inr e ↦ rw e (
        settle_shard-Covers shard_id idxs s
          (exchange T shard_id (map (λ i. token_at tokens i) idxs) r) v h
          (exchange-IfOk T shard_id (map (λ i. token_at tokens i) idxs) r))
  ]

  -- All groups are covered in the end, and what was filled stays filled.
  serve_shards-covers :
      (groups : List (ℕ × List ℕ)) (s : Slots) (r : Router Link)
      → IsTidy (Good T tokens) n s
      → All (λ g. InRange n tokens g.1) groups
      → IsTidy (Good T tokens) n (serve_shards T tokens es groups (s, r)).0
        × ((pos : ℕ)
            → is_filled s pos ≡ true
            → is_filled (serve_shards T tokens es groups (s, r)).0 pos ≡ true)
        × AllGroups
            (λ i.
              is_filled
                (serve_shards T tokens es groups (s, r)).0
                (token_at tokens i).batch_position
              ≡ true)
            groups
  unfolding serve_shards
  serve_shards-covers [] s r v h = (v, λ pos e. e, tt)
  serve_shards-covers ((shard_id, idxs) ∷ groups) s r v h =
      let next : Slots × Router Link = serve_shard T tokens es shard_id idxs (s, r) in
      let c = serve_shard-Covers shard_id idxs s r v h.0 in
      let (tidy, keeps, all) = serve_shards-covers groups next.0 next.1 c.tidy h.1 in
      (
        tidy,
        λ pos e. keeps pos (c.keeps pos e),
        (All-imp (λ i k. keeps (token_at tokens i).batch_position k) idxs c.covers, all),
      )

-- The batch positions of the tokens are the numbers below the size of the batch, each once.
abbrev pub IsNumbered : List RoutedToken → Type 0
IsNumbered tokens =
    (pos : ℕ)
    → count pos (map (λ t. t.batch_position) tokens) ≡ (if ltb pos (length tokens) then 1 else 0)

token_of_position :
    (tokens : List RoutedToken) (pos : ℕ)
    → 0 < count pos (map (λ t. t.batch_position) tokens)
    → (i : ℕ) × (i < length tokens) × ((token_at tokens i).batch_position ≡ pos)
token_of_position [] pos h = absurd (omega arith)
token_of_position (t ∷ ts) pos h = elim (ℕ_discrete pos t.batch_position) [
  | yes e ↦ (0, omega arith, sym e)
  | no ne ↦ let (i, lt, e) = token_of_position ts pos (ground arith) in (suc i, omega arith, e)
]

position_counted :
    (tokens : List RoutedToken) (i : ℕ)
    → i < length tokens
    → 0 < count (token_at tokens i).batch_position (map (λ t. t.batch_position) tokens)
position_counted [] i h = absurd (omega arith)
position_counted (t ∷ ts) zero h = ground arith
position_counted (t ∷ ts) (suc i) h = omega (arith, position_counted ts i (omega arith))

no_slots-IsTidy : (P : ℕ → RoutedResult → Type 0) (n : ℕ) → IsTidy P n (no_slots n)
no_slots-IsTidy P n = record {
  slots = length-replicate n blank;
  flags = length-replicate n false;
  placed = λ pos e. ground (arith, get_or-replicate n pos false);
}

-- No token is dropped. If the batch positions of the tokens are the numbers below the size of the
-- batch, each once, and every assigned expert has a shard, then route_batch_tolerant does not throw,
-- whatever the transports do: it returns a result for each position, which is marked as failed and
-- has the id of a token of that position, or is, but for the expert, a result for that position in
-- a message that some transport delivers.
pub route_batch_tolerant_accounts :
    (T : ICollectiveTransport) (tokens : List RoutedToken) (r : Router T.Link) (pos : ℕ)
    → IsNumbered tokens
    → All (IsMapped r.expert_to_shard) (assign_effective_experts tokens r.expert_capacity)
    → pos < length tokens
    → Returns (route_batch_tolerant T tokens r).0 (λ out.
      (length out ≡ length tokens)
      × ((get_or out pos blank).batch_position ≡ pos)
      × (IsFailure tokens pos (get_or out pos blank) ⊎ IsAnswer T (get_or out pos blank)))
unfolding route_batch_tolerant
route_batch_tolerant_accounts T tokens r pos numbered mapped lt =
    let n : ℕ = length tokens in
    let es : List ℕ = assign_effective_experts tokens r.expert_capacity in
    let (groups, e) = index_by_shard_total r.expert_to_shard 0 es [] mapped in
    let same : length es ≡ n = length-assign_effective_experts tokens r.expert_capacity in
    let range : All (λ g. InRange n tokens g.1) groups =
      (index_by_shard-AllGroups (λ i. (token_at tokens i).batch_position < n) r.expert_to_shard 0 es
          [] e).1
        (
          tt,
          λ j a b.
              ground
                (arith, position_counted tokens j, numbered (token_at tokens j).batch_position),
        ) in
    let (tidy, keeps, all) =
      serve_shards-covers T n tokens es groups (no_slots n) r (no_slots-IsTidy (Good T tokens) n)
        range in
    let final : Slots = (serve_shards T tokens es groups (no_slots n, r)).0 in
    let (i, below, here) = token_of_position tokens pos (ground (arith, numbered pos)) in
    let filled : is_filled final pos ≡ true =
      subst (λ p. is_filled final p ≡ true) here
        (((index_by_shard-AllGroups (λ j. is_filled final (token_at tokens j).batch_position ≡ true)
              r.expert_to_shard 0 es [] e).0
            all).1
          i (omega arith) (omega arith)) in
    let (there, good) = tidy.placed pos filled in
    rw (Returns, route_batch_tolerant, e) (tidy.slots, there, good)
