-- ===== src/Scheduler/Stalling.antt =====
-- What scheduler.hpp does when every block is taken and full: there is no preemption.
use native.Mathlib.Decide.{ℕ_discrete}
use aether_mo_e.Common.{
  ap, subst, ◌∙◌, ℕ, ◌+◌, ◌-◌, ◌*◌, ◌^◌, ◌≤◌, ◌<◌, min, ◌≡◌, refl, false, [], ◌∷◌, arith, Returns,
  >>=-Returns, size_t, length, ◌==◌, Bool-cases, inl, inr,
}
use aether_mo_e.PageTable.{
  Allocator, blocks_of, blocks_needed_for, ensure_capacity, free_block_count,
}
use aether_mo_e.PageTable.Bounds.{blocks_needed_bounds}
use aether_mo_e.PageTable.Shares.{dimensions-ensure_capacity}
use aether_mo_e.PageTable.Capacity.{ensure_capacity_lem, blocks_of-ensure_capacity_ne}
use aether_mo_e.Sequence.{
  Sequence, SequencePhase, prefill, decode, finished, total_tokens, prefill_complete,
}
use aether_mo_e.Scheduler.{
  SchedulerConfig, Iteration, decode_one, visit, prefill_by, do_prefill_chunk, prefill_one,
  prefill_visit,
}
use aether_mo_e.Scheduler.Measures.{is_finished}

-- The tokens that have slots: of the prompt while it is processed, then all.
abbrev pub placed : SequencePhase → Sequence → ℕ
placed prefill q = q.prefill_cursor
placed decode q = total_tokens q
placed finished q = total_tokens q

-- An allocator with nothing free, in which `blocks` tells how many blocks each sequence has.
pub record Exhausted (bs : ℕ) (blocks : ℕ → ℕ) (a : Allocator) : Type 0 where
  pub size : a.block_size ≡ bs
  pub taken : free_block_count a ≡ 0
  pub owned : (k : ℕ) → length (blocks_of a k) ≡ blocks k

-- A sequence that wants to go on, and whose blocks are full.
pub record IsFull (bs : ℕ) (blocks : ℕ → ℕ) (q : Sequence) : Type 0 where
  pub running : is_finished q.phase ≡ false
  pub early : q.phase ≡ prefill → q.prefill_cursor < length q.prompt_tokens
  pub small : length q.prompt_tokens + length q.generated_tokens + 1 + bs ≤ 2 ^ 64
  pub full : blocks q.id * bs ≤ placed q.phase q

scale_lt : (m n bs t : ℕ) → t ≤ m * bs → n * bs < t → n < m
scale_lt m n bs t h h' = grind arith

module _ (bs : ℕ) (blocks : ℕ → ℕ) (pos : 0 < bs) where
  -- A request for one token more fails, and changes nothing that counts.
  refused :
      (a : Allocator) (k n : ℕ)
      → Exhausted bs blocks a
      → n + bs ≤ 2 ^ 64
      → blocks k * bs < n
      → ((ensure_capacity a k n).1 ≡ false) × Exhausted bs blocks (ensure_capacity a k n).0
  unfolding free_block_count
  refused a k n x small more =
      let facts = ensure_capacity_lem a k n in
      let wants : blocks k < blocks_needed_for a n =
        scale_lt (blocks_needed_for a n) (blocks k) bs n
          (subst (λ b. n ≤ blocks_needed_for a n * b) x.size
            (blocks_needed_bounds a n (rw x.size pos) (rw x.size small)).0)
          more in
      let fails : (ensure_capacity a k n).1 ≡ false =
        facts.0 ∙ ground (arith, x.taken, x.owned k) in
      (
        fails,
        record {
          size = (dimensions-ensure_capacity a k n).0 ∙ x.size;
          taken = ap length (facts.2 ∙ rw fails refl) ∙ x.taken;
          owned = λ j. elim (ℕ_discrete k j) [
            | yes e ↦ rw (← e) (ap length (facts.1 ∙ rw fails refl) ∙ x.owned k)
            | no ne ↦ ap length (blocks_of-ensure_capacity_ne a k j n ne) ∙ x.owned j
          ];
        },
      )

  -- The same iteration, but for the allocator, which is still exhausted.
  abbrev pub Stalled : Iteration → Iteration → Type 0
  Stalled it it' =
      (pages : Allocator) × (it' ≡ record it { page_table = pages }) × Exhausted bs blocks pages

  decode_one-Stalled :
      (clock : ℕ → ℕ) (it : Iteration) (q : Sequence)
      → IsFull bs blocks q
      → q.phase ≡ decode
      → Exhausted bs blocks it.page_table
      → Returns (decode_one clock it q) (λ r. Stalled it r.0 × (r.1 ≡ q ∷ []))
  unfolding decode_one
  decode_one-Stalled clock it q f e x =
      let n : ℕ = size_t (total_tokens q + 1) in
      let full : blocks q.id * bs ≤ total_tokens q =
        subst (λ p. blocks q.id * bs ≤ placed p q) e f.full in
      let fits = refused it.page_table q.id n x (omega (arith, f.small)) (omega (arith, f.small)) in
      rw (fits.0) ((_, refl, fits.1), refl)

  pub visit-Stalled :
      (clock : ℕ → ℕ) (it : Iteration) (q : Sequence) (p : SequencePhase)
      → IsFull bs blocks q
      → q.phase ≡ p
      → Exhausted bs blocks it.page_table
      → Returns (visit clock it q p) (λ r. Stalled it r.0 × (r.1 ≡ q ∷ []))
  unfolding visit
  visit-Stalled clock it q prefill f e x = ((it.page_table, refl, x), refl)
  visit-Stalled clock it q decode f e x = decode_one-Stalled clock it q f e x
  visit-Stalled clock it q finished f e x = ((it.page_table, refl, x), refl)

  prefill_by-Stalled :
      (old : Allocator) (q : Sequence) (chunk : ℕ)
      → IsFull bs blocks q
      → q.phase ≡ prefill
      → 0 < chunk
      → chunk ≤ length q.prompt_tokens - q.prefill_cursor
      → Exhausted bs blocks old
      → Returns
          (prefill_by old q chunk)
          (λ r. Exhausted bs blocks r.pages × (r.seq ≡ q) × (r.chunk ≡ 0))
  unfolding prefill_by
  prefill_by-Stalled old q chunk f e some_left inside x =
      let n : ℕ = size_t (q.prefill_cursor + chunk) in
      let full : blocks q.id * bs ≤ q.prefill_cursor =
        subst (λ p. blocks q.id * bs ≤ placed p q) e f.full in
      let fits =
        refused old q.id n x (omega (arith, f.small, f.early e))
          (omega (arith, f.small, f.early e)) in
      rw (fits.0) (fits.1, refl, refl)

  do_prefill_chunk-Stalled :
      (config : SchedulerConfig) (old : Allocator) (q : Sequence) (budget : ℕ)
      → IsFull bs blocks q
      → q.phase ≡ prefill
      → Exhausted bs blocks old
      → Returns
          (do_prefill_chunk config old q budget)
          (λ r. Exhausted bs blocks r.pages × (r.seq ≡ q) × (r.chunk ≡ 0))
  unfolding do_prefill_chunk
  do_prefill_chunk-Stalled config old q budget f e x =
      let chunk : ℕ =
        min (length q.prompt_tokens - q.prefill_cursor) (min config.max_prefill_chunk budget) in
      let more : prefill_complete q ≡ false = ground (arith, f.early e) in
      rw more (elim (Bool-cases (chunk == 0)) [
        | inl nothing ↦ rw nothing (x, refl, refl)
        | inr something ↦
            rw something (prefill_by-Stalled old q chunk f e (ground arith) (omega arith) x)
      ])

  pub prefill_one-Stalled :
      (config : SchedulerConfig) (it : Iteration) (q : Sequence)
      → IsFull bs blocks q
      → q.phase ≡ prefill
      → Exhausted bs blocks it.page_table
      → Returns (prefill_one config it q) (λ r. Stalled it r.0 × (r.1 ≡ q) × (r.2 ≡ 0))
  unfolding prefill_one
  prefill_one-Stalled config it q f e x =
      >>=-Returns (do_prefill_chunk config it.page_table q it.budget) _ _ _
        (do_prefill_chunk-Stalled config it.page_table q it.budget f e x)
        λ c (x', same, nothing). rw nothing ((c.pages, refl, x'), same, refl)

  pub prefill_visit-Stalled :
      (config : SchedulerConfig) (it : Iteration) (q : Sequence) (p : SequencePhase)
      → IsFull bs blocks q
      → q.phase ≡ p
      → Exhausted bs blocks it.page_table
      → Returns (prefill_visit config it q p) (λ r. Stalled it r.0 × (r.1 ≡ q))
  unfolding prefill_visit
  prefill_visit-Stalled config it q prefill f e x =
      >>=-Returns (prefill_one config it q) _ _ _ (prefill_one-Stalled config it q f e x)
        λ r (st, same, nothing). (st, same)
  prefill_visit-Stalled config it q decode f e x = ((it.page_table, refl, x), refl)
  prefill_visit-Stalled config it q finished f e x = ((it.page_table, refl, x), refl)
