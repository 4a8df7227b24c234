-- ===== src/Scheduler/Chunking.antt =====
-- A turn of the prefill loops of scheduler.hpp, as work done: with ample blocks it makes progress.
use aether_mo_e.Common.{
  ℕ, ◌+◌, ◌-◌, ◌≤◌, ◌<◌, ◌≡◌, ◌≢◌, refl, true, List, [], ◌∷◌, arith, min, Returns, >>=-Returns,
  Returns-mono, size_t, length, ◌==◌, Bool-cases, inl, inr,
}
use aether_mo_e.PageTable.{Allocator, ensure_capacity}
use aether_mo_e.PageTable.Shares.{Room, Ample, ensure_capacity-Room, ensure_capacity_fits}
use aether_mo_e.Sequence.{Sequence, SequencePhase, prefill, decode, finished, prefill_complete}
use aether_mo_e.Scheduler.{
  SchedulerConfig, Iteration, prefill_by, do_prefill_chunk, prefill_one, prefill_visit,
}
use aether_mo_e.Scheduler.Turns.{charge-counts}
use aether_mo_e.Scheduler.Chunks.{Chunk, transition_decode}
use aether_mo_e.Scheduler.Serving.{within_share}
use aether_mo_e.Scheduler.Work.{remaining, IsServable, Works, Gains, stop-Works}

module _ (bs total : ℕ) (share : ℕ → ℕ) (pos : 0 < bs) where
  -- What a chunk of a sequence leaves, and when it is empty.
  record Chunked (old : Allocator) (q : Sequence) (budget : ℕ) (r : Chunk) : Type 0 where
    servable : IsServable bs total share r.seq
    room : Room bs total share r.pages
    worked : remaining r.seq + r.chunk ≤ remaining q
    fits : r.chunk ≤ budget
    stays : r.chunk ≡ 0 → q.phase ≡ prefill → r.seq.phase ≡ prefill

  module _ (old : Allocator) (q : Sequence) (v : IsServable bs total share q)
      (r : Room bs total share old) where
    prefill_by-Chunked :
        (budget chunk : ℕ)
        → 0 < chunk
        → chunk ≤ budget
        → chunk ≤ length q.prompt_tokens - q.prefill_cursor
        → Returns
            (prefill_by old q chunk)
            (λ s. Chunked old q budget s × ((ks : List ℕ) → Ample bs total share ks → 0 < s.chunk))
    unfolding prefill_by
    prefill_by-Chunked budget chunk some_left h h' =
        let n : ℕ = size_t (q.prefill_cursor + chunk) in
        let same : n ≡ q.prefill_cursor + chunk = omega (arith, v.small) in
        let q' : Sequence = record q { prefill_cursor = n } in
        let small =
          within_share bs total share pos old q (q.prefill_cursor + chunk) r v (omega arith) in
        let r' = ensure_capacity-Room bs total share old q.id n small r in
        elim (Bool-cases (ensure_capacity old q.id n).1) [
          | inr full ↦ rw full (
            record {
              servable = v;
              room = r';
              worked = omega arith;
              fits = omega arith;
              stays = λ e e'. e';
            },
            λ ks ample.
                let fits = ensure_capacity_fits bs total share ks old q.id n ample r small in
                absurd (cc),
          )
          | inl enough ↦ rw enough (elim (Bool-cases (prefill_complete q')) [
            | inl done ↦
                rw (done, transition_decode q' v.running)
                  (
                    record {
                      servable = record {
                        running = refl;
                        owes = v.owes;
                        cursor = omega arith;
                        early = λ e. absurd (ground arith);
                        small = v.small;
                        enough = v.enough;
                      };
                      room = r';
                      worked = omega arith;
                      fits = h;
                      stays = λ e. absurd (omega arith);
                    },
                    λ ks ample. some_left,
                  )
            | inr more ↦ rw more (
              record {
                servable = record {
                  running = v.running;
                  owes = v.owes;
                  cursor = omega arith;
                  early = λ e. ground arith;
                  small = v.small;
                  enough = v.enough;
                };
                room = r';
                worked = omega arith;
                fits = h;
                stays = λ e. absurd (omega arith);
              },
              λ ks ample. some_left,
            )
          ])
        ]

    do_prefill_chunk-Chunked :
        (config : SchedulerConfig) (budget : ℕ)
        → Returns (do_prefill_chunk config old q budget) (λ s.
          Chunked old q budget s
          × ((ks : List ℕ)
              → Ample bs total share ks
              → q.phase ≡ prefill
              → 0 < config.max_prefill_chunk
              → budget ≢ 0
              → 0 < s.chunk))
    unfolding do_prefill_chunk
    do_prefill_chunk-Chunked config budget =
        let chunk : ℕ =
          min (length q.prompt_tokens - q.prefill_cursor) (min config.max_prefill_chunk budget) in
        elim (Bool-cases (prefill_complete q)) [
          | inl done ↦
              rw (done, transition_decode q v.running)
                (
                  record {
                    servable = record {
                      running = refl;
                      owes = v.owes;
                      cursor = v.cursor;
                      early = λ e. absurd (ground arith);
                      small = v.small;
                      enough = v.enough;
                    };
                    room = r;
                    worked = omega arith;
                    fits = omega arith;
                    stays = λ e e'. absurd (ground (arith, v.early e'));
                  },
                  λ ks ample e. absurd (ground (arith, v.early e)),
                )
          | inr more ↦ rw more (elim (Bool-cases (chunk == 0)) [
            | inl nothing ↦ rw nothing (
              record {
                servable = v;
                room = r;
                worked = omega arith;
                fits = omega arith;
                stays = λ e e'. e';
              },
              λ ks ample e some_max left. absurd (ground (arith, v.early e)),
            )
            | inr something ↦ rw something (
                Returns-mono (prefill_by old q chunk) _ _
                  (prefill_by-Chunked budget chunk (ground arith) (omega arith) (omega arith))
                  λ s w. (w.0, λ ks ample e some_max left. w.1 ks ample))
          ])
        ]

  module _ (config : SchedulerConfig) (it : Iteration) (q : Sequence)
      (v : IsServable bs total share q) (r : Room bs total share it.page_table) where
    -- With ample blocks, a budget and a chunk size, a sequence in PREFILL gains.
    abbrev pub Starts : Iteration → Type 0
    Starts it' =
        q.phase ≡ prefill
        → 0 < config.max_prefill_chunk
        → it.budget ≢ 0
        → Gains bs total share it it'

    pub prefill_one-Works : Returns (prefill_one config it q) (λ s.
        Works bs total share it (q ∷ []) s.0 (s.1 ∷ [])
        × Starts s.0
        × (s.2 ≡ 0 → q.phase ≡ prefill → s.1.phase ≡ prefill))
    unfolding prefill_one
    prefill_one-Works =
        >>=-Returns (do_prefill_chunk config it.page_table q it.budget) _ _ _
          (do_prefill_chunk-Chunked it.page_table q v r config it.budget)
          λ c w. elim (Bool-cases (c.chunk == 0)) [
            | inl stalled ↦ rw stalled (
              record {
                servable = (w.0.servable, tt);
                room = w.0.room;
                worked = omega (arith, w.0.worked);
                more = omega arith;
                spent = refl;
              },
              λ e some_max left ks ample.
                  absurd (ground (arith, stalled, w.1 ks ample e some_max left)),
              λ h e. w.0.stays (ground arith) e,
            )
            | inr moved ↦
                let n = (charge-counts it c.pages c.seq true c.chunk 0).0 in
                rw moved (
                  record {
                    servable = (w.0.servable, tt);
                    room = w.0.room;
                    worked = omega (arith, n, w.0.worked);
                    more = omega (arith, n);
                    spent = omega (arith, n, w.0.fits);
                  },
                  λ e some_max left ks ample. omega (arith, n, w.1 ks ample e some_max left),
                  λ h e. absurd (ground (arith, moved)),
                )
          ]

    pub prefill_visit-Works :
        (p : SequencePhase)
        → q.phase ≡ p
        → Returns
            (prefill_visit config it q p)
            (λ s. Works bs total share it (q ∷ []) s.0 (s.1 ∷ []) × Starts s.0)
    unfolding prefill_visit
    prefill_visit-Works prefill e =
        >>=-Returns (prefill_one config it q) _ _ _ prefill_one-Works λ s w. (w.0, w.1)
    prefill_visit-Works decode e =
        (stop-Works bs total share it (q ∷ []) (v, tt) r, λ e'. absurd (ground (arith, e, e')))
    prefill_visit-Works finished e =
        (stop-Works bs total share it (q ∷ []) (v, tt) r, λ e'. absurd (ground (arith, e, e')))
