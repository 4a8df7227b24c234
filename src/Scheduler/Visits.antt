-- ===== src/Scheduler/Visits.antt =====
-- The bodies of the loops of scheduler.hpp: no throw, and what each leaves.
use aether_mo_e.Common.{
  arith, ℕ, ◌+◌, ◌≡◌, ◌≢◌, refl, List, [], ◌∷◌, Returns, size_t, length, leb, Bool-cases, inl, inr,
}
use aether_mo_e.PageTable.{Allocator, ensure_capacity}
use aether_mo_e.PageTable.Exclusive.{IsExclusive, ensure_capacity-IsExclusive}
use aether_mo_e.PageTable.Capacity.{blocks_of-ensure_capacity_ne}
use aether_mo_e.Sequence.{Sequence, SequencePhase, prefill, decode, finished, total_tokens}
use aether_mo_e.Scheduler.{Iteration, emit_token, decode_one, visit}
use aether_mo_e.Scheduler.Measures.{dead}
use aether_mo_e.Scheduler.Turns.{
  Turn, Pages, emit_token_lem, last_token-Turn, next_token-Turn, stay-Pages, leave-Pages, grown,
}

abbrev pub Advances : Iteration → List Sequence → Iteration → List Sequence → Type 0
Advances it xs it' xs' = Turn it xs it' xs' × Pages it xs it' xs'

module _ (it : Iteration) (q : Sequence) (live : dead (q ∷ []) ≡ 0)
    (v : IsExclusive it.page_table) where
  -- A turn that changes nothing.
  pub idle-Advances : Advances it (q ∷ []) it (q ∷ [])
  idle-Advances = (
    record {
      live = live;
      spent = refl;
      accounted = λ k. refl;
      fewer = λ k. omega arith;
      paid = λ k. refl;
      first = λ k. refl;
      timed = λ k. refl;
    },
    stay-Pages it it q it.page_table q v (λ k h. refl) refl refl,
  )

  -- A turn that only asks for blocks.
  asked-Advances :
      (n : ℕ)
      → Advances it
          (q ∷ [])
          (record it { page_table = (ensure_capacity it.page_table q.id n).0 })
          (q ∷ [])
  asked-Advances n = (
    record {
      live = live;
      spent = refl;
      accounted = λ k. refl;
      fewer = λ k. omega arith;
      paid = λ k. refl;
      first = λ k. refl;
      timed = λ k. refl;
    },
    stay-Pages it _ q (ensure_capacity it.page_table q.id n).0 q
        (ensure_capacity-IsExclusive it.page_table q.id n v)
        (λ k h. blocks_of-ensure_capacity_ne it.page_table q.id k n h) refl refl,
  )

module _ (clock : ℕ → ℕ) (it : Iteration) (q : Sequence) (live : dead (q ∷ []) ≡ 0)
    (v : IsExclusive it.page_table) (pos : it.budget ≢ 0) where
  emit_token-Advances :
      (n : ℕ)
      → q.phase ≡ decode
      → Returns
          (emit_token clock it (ensure_capacity it.page_table q.id n).0 q)
          (λ r. Advances it (q ∷ []) r.0 r.1)
  emit_token-Advances n e =
      let pages : Allocator = (ensure_capacity it.page_table q.id n).0 in
      let own = ensure_capacity-IsExclusive it.page_table q.id n v in
      let others =
        λ (k : ℕ) (h : q.id ≢ k). blocks_of-ensure_capacity_ne it.page_table q.id k n h in
      rw (emit_token_lem clock it pages q e)
        (elim (Bool-cases (leb q.max_new_tokens (length q.generated_tokens + 1))) [
          | inl full ↦ rw full (
            last_token-Turn clock it pages q e live pos full,
            leave-Pages it _ q pages own others refl,
          )
          | inr more ↦ rw more (
            next_token-Turn clock it pages q e live pos more,
            stay-Pages it _ q pages (grown clock it pages q) own others refl refl,
          )
        ])

  decode_one-Advances :
      q.phase ≡ decode → Returns (decode_one clock it q) (λ r. Advances it (q ∷ []) r.0 r.1)
  unfolding decode_one
  decode_one-Advances e =
      let n : ℕ = size_t (total_tokens q + 1) in
      elim (Bool-cases (ensure_capacity it.page_table q.id n).1) [
        | inl fits ↦ rw fits (emit_token-Advances n e)
        | inr full ↦ rw full (asked-Advances it q live v n)
      ]

  -- The body of the first loop.
  pub visit-Advances :
      (p : SequencePhase)
      → q.phase ≡ p
      → Returns (visit clock it q p) (λ r. Advances it (q ∷ []) r.0 r.1)
  unfolding visit
  visit-Advances prefill e = idle-Advances it q live v
  visit-Advances decode e = decode_one-Advances e
  visit-Advances finished e = idle-Advances it q live v
