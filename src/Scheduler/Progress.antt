-- ===== src/Scheduler/Progress.antt =====
-- How far a prefill chunk of scheduler.hpp takes a sequence.
use aether_mo_e.Common.{
  ℕ, ◌+◌, ◌-◌, ◌*◌, ◌^◌, ◌≤◌, ◌<◌, min, ◌≡◌, ◌≢◌, refl, sym, ap, ◌∙◌, Bool, inl, inr, false, arith,
  Returns, ◌==◌, leb, size_t, Bool-cases, length, if◌then◌else◌,
}
use aether_mo_e.PageTable.{
  Allocator, ensure_capacity, blocks_of, blocks_needed_for, free_block_count,
}
use aether_mo_e.PageTable.Capacity.{ensure_capacity_lem}
use aether_mo_e.PageTable.Bounds.{ensure_capacity_slots}
use aether_mo_e.Sequence.{Sequence, decode, prefill_complete}
use aether_mo_e.Scheduler.{SchedulerConfig, prefill_by, do_prefill_chunk}
use aether_mo_e.Scheduler.Measures.{is_finished}
use aether_mo_e.Scheduler.Chunks.{Chunk, transition_decode}

-- The prompt tokens that the config and the budget let through.
abbrev pub wanted : SchedulerConfig → Sequence → ℕ → ℕ
wanted config q budget =
    min (length q.prompt_tokens - q.prefill_cursor) (min config.max_prefill_chunk budget)

-- Whether the blocks of the sequence and the free ones hold so many more prompt tokens.
abbrev pub has_blocks : Allocator → Sequence → ℕ → Bool
has_blocks a q n =
    leb (blocks_needed_for a (q.prefill_cursor + n))
      (length (blocks_of a q.id) + free_block_count a)

-- What holds after a chunk for which `want` tokens were allowed.
pub record Progress (old : Allocator) (q : Sequence) (want : ℕ) (r : Chunk) : Type 0 where
  -- The cursor moves by the tokens that are reported, inside the prompt.
  pub moved : r.seq.prefill_cursor ≡ q.prefill_cursor + r.chunk
  pub inside : r.seq.prefill_cursor ≤ length q.prompt_tokens
  -- All if there are blocks for them, and nothing if not.
  pub whole : r.chunk ≡ (if has_blocks old q want then want else 0)
  -- What is processed has its slots in the sequence's blocks.
  pub slots : r.chunk ≢ 0 → r.seq.prefill_cursor ≤ length (blocks_of r.pages q.id) * old.block_size
  -- The sequence is in DECODE as soon as the prompt is processed.
  pub phase :
      r.seq.phase ≡ (if leb (length q.prompt_tokens) r.seq.prefill_cursor then decode else q.phase)

module _ (old : Allocator) (q : Sequence) (running : is_finished q.phase ≡ false)
    (bs : 0 < old.block_size) (cursor : q.prefill_cursor ≤ length q.prompt_tokens)
    (small : length q.prompt_tokens + old.block_size ≤ 2 ^ 64) where
  prefill_by-Progress :
      (want : ℕ)
      → prefill_complete q ≡ false
      → want ≤ length q.prompt_tokens - q.prefill_cursor
      → Returns (prefill_by old q want) (Progress old q want)
  unfolding prefill_by
  prefill_by-Progress want more h =
      let n : ℕ = size_t (q.prefill_cursor + want) in
      let q' : Sequence = record q { prefill_cursor = n } in
      let same : n ≡ q.prefill_cursor + want = omega arith in
      let decides : (ensure_capacity old q.id n).1 ≡ has_blocks old q want =
        (ensure_capacity_lem old q.id n).0
        ∙ ap
            (λ k.
              leb (blocks_needed_for old k) (length (blocks_of old q.id) + free_block_count old))
            same in
      elim (Bool-cases (ensure_capacity old q.id n).1) [
        | inr full ↦ rw full (record {
          moved = omega arith;
          inside = cursor;
          whole = rw (sym decides ∙ full) refl;
          slots = λ some. absurd (some refl);
          phase = rw more;
        })
        | inl enough ↦
            let slots = (ensure_capacity_slots old q.id n bs (omega arith) enough).0 in
            rw enough (elim (Bool-cases (prefill_complete q')) [
              | inl done ↦
                  rw (done, transition_decode q' running)
                    (record {
                      moved = same;
                      inside = omega arith;
                      whole = rw (sym decides ∙ enough) refl;
                      slots = λ some. slots;
                      phase = rw done;
                    })
              | inr left ↦ rw left (record {
                moved = same;
                inside = omega arith;
                whole = rw (sym decides ∙ enough) refl;
                slots = λ some. slots;
                phase = rw left;
              })
            ])
      ]

  -- For a sequence that is not finished, whose cursor is inside its prompt, with a block size above
  -- 0 that makes no sum wrap: do_prefill_chunk does not throw. It processes all that the prompt,
  -- max_prefill_chunk and the budget allow if the sequence's blocks and the free ones are enough for
  -- that, and nothing if they are not. The cursor moves by what is processed, which has slots in the
  -- sequence's blocks, and stays inside the prompt. The sequence is then in DECODE if its prompt is
  -- done, and keeps its phase if not.
  pub do_prefill_chunk-Progress :
      (config : SchedulerConfig) (budget : ℕ)
      → Returns (do_prefill_chunk config old q budget) (Progress old q (wanted config q budget))
  unfolding do_prefill_chunk
  do_prefill_chunk-Progress config budget =
      let chunk : ℕ = wanted config q budget in
      elim (Bool-cases (prefill_complete q)) [
        | inl done ↦
            rw (done, transition_decode q running)
              (record {
                moved = omega arith;
                inside = cursor;
                whole = ground arith;
                slots = λ some. absurd (some refl);
                phase = rw done;
              })
        | inr more ↦ rw more (elim (Bool-cases (chunk == 0)) [
          | inl nothing ↦ rw nothing (record {
            moved = omega arith;
            inside = cursor;
            whole = ground arith;
            slots = λ some. absurd (some refl);
            phase = rw more;
          })
          | inr something ↦ rw something (prefill_by-Progress chunk more (omega arith))
        ])
      ]
