-- ===== src/Scheduler/Chunks.antt =====
-- do_prefill_chunk of scheduler.hpp, and the turn of a sequence in the two prefill loops.
use aether_mo_e.Common.{
  ℕ, ◌+◌, ◌-◌, min, ◌≤◌, ◌≡◌, ◌≢◌, refl, true, false, [], ◌∷◌, arith, Returns, >>=-Returns, ok,
  size_t, length, ◌==◌, Bool-cases, inl, inr,
}
use aether_mo_e.PageTable.{Allocator, ensure_capacity, blocks_of}
use aether_mo_e.PageTable.Exclusive.{IsExclusive, ensure_capacity-IsExclusive}
use aether_mo_e.PageTable.Capacity.{blocks_of-ensure_capacity_ne}
use aether_mo_e.Sequence.{
  Sequence, SequencePhase, prefill, decode, finished, transition_to, prefill_complete,
}
use aether_mo_e.Scheduler.{
  SchedulerConfig, Iteration, charge, prefill_by, do_prefill_chunk, prefill_one, prefill_visit,
}
use aether_mo_e.Scheduler.Measures.{is_finished, dead}
use aether_mo_e.Scheduler.Turns.{stay-Pages, charge-counts}
use aether_mo_e.Scheduler.Visits.{Advances, idle-Advances}

-- A prefill chunk, as the allocator, the sequence and the number of tokens.
abbrev pub Chunk : Type 0
Chunk = record { pages : Allocator; seq : Sequence; chunk : ℕ }

-- What it keeps.
record Chunked (old : Allocator) (q : Sequence) (budget : ℕ) (r : Chunk) : Type 0 where
  same_id : r.seq.id ≡ q.id
  same_tokens : r.seq.generated_tokens ≡ q.generated_tokens
  same_quota : r.seq.max_new_tokens ≡ q.max_new_tokens
  running : is_finished r.seq.phase ≡ false
  fits : r.chunk ≤ budget
  exclusive : IsExclusive r.pages
  others : (k : ℕ) → q.id ≢ k → blocks_of r.pages k ≡ blocks_of old k

pub live-running : (q : Sequence) → dead (q ∷ []) ≡ 0 → is_finished q.phase ≡ false
live-running q live = ground arith

pub transition_decode :
    (q : Sequence)
    → is_finished q.phase ≡ false
    → transition_to q decode ≡ ok (record q { phase = decode })
unfolding transition_to
transition_decode q live = ground arith

module _ (old : Allocator) (q : Sequence) (running : is_finished q.phase ≡ false)
    (v : IsExclusive old) where
  same-Chunked : (budget : ℕ) → Chunked old q budget (record { pages = old; seq = q; chunk = 0 })
  same-Chunked budget = record {
    same_id = refl;
    same_tokens = refl;
    same_quota = refl;
    running = running;
    fits = omega arith;
    exclusive = v;
    others = λ k h. refl;
  }

  prefill_by-Chunked :
      (budget chunk : ℕ) → chunk ≤ budget → Returns (prefill_by old q chunk) (Chunked old q budget)
  unfolding prefill_by
  prefill_by-Chunked budget chunk h =
      let n : ℕ = size_t (q.prefill_cursor + chunk) in
      let q' : Sequence = record q { prefill_cursor = n } in
      let own = ensure_capacity-IsExclusive old q.id n v in
      let others = λ (k : ℕ) (e : q.id ≢ k). blocks_of-ensure_capacity_ne old q.id k n e in
      elim (Bool-cases (ensure_capacity old q.id n).1) [
        | inr full ↦ rw full (record {
          same_id = refl;
          same_tokens = refl;
          same_quota = refl;
          running = running;
          fits = omega arith;
          exclusive = own;
          others = others;
        })
        | inl enough ↦ rw enough (elim (Bool-cases (prefill_complete q')) [
          | inl done ↦
              rw (done, transition_decode q' running)
                (record {
                  same_id = refl;
                  same_tokens = refl;
                  same_quota = refl;
                  running = refl;
                  fits = h;
                  exclusive = own;
                  others = others;
                })
          | inr more ↦ rw more (record {
            same_id = refl;
            same_tokens = refl;
            same_quota = refl;
            running = running;
            fits = h;
            exclusive = own;
            others = others;
          })
        ])
      ]

  do_prefill_chunk-Chunked :
      (config : SchedulerConfig) (budget : ℕ)
      → Returns (do_prefill_chunk config old q budget) (Chunked old q budget)
  unfolding do_prefill_chunk
  do_prefill_chunk-Chunked config budget =
      let chunk : ℕ =
        min (length q.prompt_tokens - q.prefill_cursor) (min config.max_prefill_chunk budget) in
      elim (Bool-cases (prefill_complete q)) [
        | inl done ↦
            rw (done, transition_decode q running)
              (record {
                same_id = refl;
                same_tokens = refl;
                same_quota = refl;
                running = refl;
                fits = omega arith;
                exclusive = v;
                others = λ k h. refl;
              })
        | inr more ↦ rw more (elim (Bool-cases (chunk == 0)) [
          | inl none_left ↦ rw none_left (same-Chunked budget)
          | inr some_left ↦ rw some_left (prefill_by-Chunked budget chunk (omega arith))
        ])
      ]

module _ (it : Iteration) (q : Sequence) (live : dead (q ∷ []) ≡ 0) (r : Chunk)
    (c : Chunked it.page_table q it.budget r) where
  stalled-Advances : Advances it (q ∷ []) (record it { page_table = r.pages }) (r.seq ∷ [])
  stalled-Advances = (
    record {
      live = ground arith;
      spent = refl;
      accounted = λ k. ground arith;
      fewer = λ k. ground arith;
      paid = λ k. ground arith;
      first = λ k. ground arith;
      timed = λ k. refl;
    },
    stay-Pages it _ q r.pages r.seq c.exclusive c.others c.same_id refl,
  )

  charged-Advances : Advances it (q ∷ []) (charge it r.pages r.seq true r.chunk) (r.seq ∷ [])
  charged-Advances = (
    record {
      live = ground arith;
      spent = omega (arith, (charge-counts it r.pages r.seq true r.chunk 0).0, c.fits);
      accounted = λ k. ground (arith, charge-counts it r.pages r.seq true r.chunk k);
      fewer = λ k. ground arith;
      paid = λ k. ground (arith, charge-counts it r.pages r.seq true r.chunk k);
      first = λ k. ground arith;
      timed = λ k. ground (arith, charge-counts it r.pages r.seq true r.chunk k);
    },
    stay-Pages it _ q r.pages r.seq c.exclusive c.others c.same_id refl,
  )

module _ (config : SchedulerConfig) (it : Iteration) (q : Sequence) (live : dead (q ∷ []) ≡ 0)
    (v : IsExclusive it.page_table) where
  -- A prefill turn; a chunk that is reported is not larger than the budget.
  pub prefill_one-Advances :
      Returns (prefill_one config it q) (λ r. Advances it (q ∷ []) r.0 (r.1 ∷ []))
  unfolding prefill_one
  prefill_one-Advances =
      >>=-Returns (do_prefill_chunk config it.page_table q it.budget) _
        (Chunked it.page_table q it.budget) _
        (do_prefill_chunk-Chunked it.page_table q (live-running q live) v config it.budget)
        λ r c. elim (Bool-cases (r.chunk == 0)) [
          | inl stalled ↦ rw stalled (stalled-Advances it q live r c)
          | inr moved ↦ rw moved (charged-Advances it q live r c)
        ]

  -- The body of the second loop.
  pub prefill_visit-Advances :
      (p : SequencePhase)
      → Returns (prefill_visit config it q p) (λ r. Advances it (q ∷ []) r.0 (r.1 ∷ []))
  unfolding prefill_visit
  prefill_visit-Advances prefill =
      >>=-Returns (prefill_one config it q) _ (λ r. Advances it (q ∷ []) r.0 (r.1 ∷ [])) _
        prefill_one-Advances (λ r h. h)
  prefill_visit-Advances decode = idle-Advances it q live v
  prefill_visit-Advances finished = idle-Advances it q live v
