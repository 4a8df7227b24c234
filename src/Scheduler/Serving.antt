-- ===== src/Scheduler/Serving.antt =====
-- A turn of the first loop of scheduler.hpp, as work done: with ample blocks it makes progress.
use aether_mo_e.Common.{
  ℕ, ◌+◌, ◌≤◌, ◌<◌, ◌≡◌, ◌≢◌, refl, false, [], ◌∷◌, arith, Returns, Returns-mono, size_t, length,
  length-append, leb, Bool-cases, inl, inr, ◌⊎◌,
}
use aether_mo_e.PageTable.{Allocator, ensure_capacity, blocks_needed_for, free_sequence}
use aether_mo_e.PageTable.Shares.{
  Room, blocks_needed_le, ensure_capacity-Room, free_sequence-Room, ensure_capacity_fits,
}
use aether_mo_e.Sequence.{Sequence, SequencePhase, prefill, decode, finished, total_tokens}
use aether_mo_e.Scheduler.{Iteration, placeholder_token, emit_token, decode_one, visit}
use aether_mo_e.Scheduler.Measures.{quota, tokens}
use aether_mo_e.Scheduler.Turns.{emit_token_lem, grown, timed_it, charge-counts}
use aether_mo_e.Scheduler.Work.{IsServable, Works, Gains, stop-Works}

module _ (bs total : ℕ) (share : ℕ → ℕ) (pos : 0 < bs) where
  -- A request for no more tokens than the sequence ever has stays within its share.
  pub within_share :
      (pages : Allocator) (q : Sequence) (n : ℕ)
      → Room bs total share pages
      → IsServable bs total share q
      → n ≤ length q.prompt_tokens + quota q
      → blocks_needed_for pages (size_t n) ≤ share q.id
  within_share pages q n r v h = omega (
    arith,
    v.enough,
    v.small,
    blocks_needed_le pages bs (size_t n) (length q.prompt_tokens + quota q) r.blocks pos
        (omega (arith, v.small)) v.small,
  )

  module _ (clock : ℕ → ℕ) (it : Iteration) (q : Sequence) (v : IsServable bs total share q)
      (left : it.budget ≢ 0) where
    emit_token-Works :
        (pages : Allocator)
        → Room bs total share pages
        → q.phase ≡ decode
        → Returns (emit_token clock it pages q) (λ r.
          Works bs total share it (q ∷ []) r.0 r.1 × (tokens it.results < tokens r.0.results))
    emit_token-Works pages r e =
        let it' : Iteration = timed_it clock it pages q in
        let q' : Sequence = grown clock it pages q in
        let long = length-append q.generated_tokens (placeholder_token ∷ []) in
        rw (emit_token_lem clock it pages q e)
          (elim (Bool-cases (leb q.max_new_tokens (length q.generated_tokens + 1))) [
            | inl full ↦
                let c =
                  (charge-counts it' (free_sequence pages q.id) (record q' { phase = finished })
                    false 1 0).0 in
                rw full (
                  record {
                    servable = tt;
                    room = free_sequence-Room bs total share pages q.id r;
                    worked = omega (arith, c, v.owes);
                    more = omega (arith, c);
                    spent = omega (arith, c);
                  },
                  omega (arith, c),
                )
            | inr more ↦
                let c = (charge-counts it' pages q' false 1 0).0 in
                rw more (
                  record {
                    servable = (
                      record {
                        running = v.running;
                        owes = ground (arith, long, v.owes);
                        cursor = v.cursor;
                        early = v.early;
                        small = v.small;
                        enough = v.enough;
                      },
                      tt,
                    );
                    room = r;
                    worked = omega (arith, c, long, v.owes);
                    more = omega (arith, c);
                    spent = omega (arith, c);
                  },
                  omega (arith, c),
                )
          ])

    decode_one-Works :
        Room bs total share it.page_table
        → q.phase ≡ decode
        → Returns
            (decode_one clock it q)
            (λ r. Works bs total share it (q ∷ []) r.0 r.1 × Gains bs total share it r.0)
    unfolding decode_one
    decode_one-Works r e =
        let n : ℕ = size_t (total_tokens q + 1) in
        let small = within_share it.page_table q (total_tokens q + 1) r v (omega (arith, v.owes)) in
        let r' = ensure_capacity-Room bs total share it.page_table q.id n small r in
        elim (Bool-cases (ensure_capacity it.page_table q.id n).1) [
          | inl fits ↦ rw fits (
              Returns-mono (emit_token clock it (ensure_capacity it.page_table q.id n).0 q) _ _
                (emit_token-Works (ensure_capacity it.page_table q.id n).0 r' e)
                λ s w. (w.0, λ ks ample. w.1))
          | inr full ↦ rw full (
            record {
              servable = (v, tt);
              room = r';
              worked = omega arith;
              more = omega arith;
              spent = refl;
            },
            λ ks ample.
                let fits =
                  ensure_capacity_fits bs total share ks it.page_table q.id n ample r small in
                absurd (cc),
          )
        ]

    -- The body of the first loop makes progress on a sequence in DECODE, and leaves one in PREFILL
    -- as it is.
    pub visit-Works :
        Room bs total share it.page_table
        → (p : SequencePhase) → q.phase ≡ p
        → Returns (visit clock it q p) (λ r.
          Works bs total share it (q ∷ []) r.0 r.1
          × (Gains bs total share it r.0 ⊎ ((p ≡ prefill) × (r.0 ≡ it) × (r.1 ≡ q ∷ []))))
    unfolding visit
    visit-Works r prefill e =
        (stop-Works bs total share it (q ∷ []) (v, tt) r, inr (refl, refl, refl))
    visit-Works r decode e =
        Returns-mono (decode_one clock it q) _ _ (decode_one-Works r e) λ s w. (w.0, inl w.1)
    visit-Works r finished e = absurd (ground (arith, v.running))
