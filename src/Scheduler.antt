-- ===== src/Scheduler.antt =====
-- src/core/scheduler.hpp: one iteration of continuous batching, over the allocator of PageTable and
-- the sequences of Sequence. The scheduler is driven by one thread. A sequence is behind a shared
-- pointer that stands in one queue, so the queues hold the sequences themselves.
pub mod Measures
pub mod Turns
pub mod Visits
pub mod Chunks
pub mod Passes
pub mod Steps
pub mod Runs
pub mod Blocking
pub mod Progress
pub mod Work
pub mod Serving
pub mod Chunking
pub mod Draining
pub mod Rounds
pub mod Soundness
pub mod Liveness
pub mod Stalling
pub mod Deadlock
pub mod Recording
mod Tests
use aether_mo_e.Common.{
  ℕ, zero, suc, ◌+◌, ◌-◌, ◌%◌, ◌^◌, min, Bool, true, false, List, [], ◌∷◌, ◌++◌, leb, ◌==◌,
  if◌then◌else◌, length, Result, ok, err, ◌>>=◌, size_t,
}
use aether_mo_e.PageTable.{Allocator, ensure_capacity, free_sequence}
use aether_mo_e.Sequence.{
  Sequence, SequencePhase, prefill, decode, finished, prefill_complete, total_tokens, transition_to,
}
use aether_mo_e.Telemetry.{MetricSample, MetricKind, ttft, inter_token}

pub record StepResult : Type 0 where
  pub seq_id : ℕ
  pub was_prefill_chunk : Bool
  pub tokens_processed : ℕ
  pub phase_after : SequencePhase

pub record SchedulerConfig : Type 0 where
  pub max_batch_tokens : ℕ
  pub max_prefill_chunk : ℕ

abbrev pub default_config : SchedulerConfig
default_config = record { max_batch_tokens = 2048; max_prefill_chunk = 512 }

-- `reads` counts the readings of the steady clock so far.
pub record Scheduler : Type 0 where
  pub config : SchedulerConfig
  pub page_table : Allocator
  pub waiting : List Sequence
  pub active : List Sequence
  pub reads : ℕ

-- The variables of `step` that its three loops share, with the allocator and what is recorded.
pub record Iteration : Type 0 where
  pub page_table : Allocator
  pub budget : ℕ
  pub results : List StepResult
  pub samples : List MetricSample
  pub reads : ℕ

abbrev pub placeholder_token : ℕ
placeholder_token = 0xFFFFFFFF

unfoldable pub admit : Scheduler → Sequence → Scheduler
admit s seq = record s { waiting = s.waiting ++ seq ∷ [] }

abbrev pub num_waiting : Scheduler → ℕ
num_waiting s = length s.waiting

abbrev pub num_active : Scheduler → ℕ
num_active s = length s.active

-- A difference of two clock readings as `static_cast<uint64_t>(latency.count())`.
abbrev pub nanoseconds : ℕ → ℕ → ℕ
nanoseconds now since = size_t (now + 2 ^ 64 - size_t since)

-- TTFT for the first generated token, the time since the last one for the others.
unfoldable pub sample_for : Sequence → List ℕ → ℕ → MetricSample
sample_for seq [] now = record {
  seq_id = seq.id;
  kind = ttft;
  latency_ns = nanoseconds now seq.admitted_at;
}
sample_for seq (t ∷ ts) now = record {
  seq_id = seq.id;
  kind = inter_token;
  latency_ns = nanoseconds now seq.last_decode_at;
}

-- `results.push_back({seq_id, was_prefill, tokens, phase})` and the charge to the budget.
abbrev pub charge : Iteration → Allocator → Sequence → Bool → ℕ → Iteration
charge it pages seq was_prefill tokens = record it {
  page_table = pages;
  budget = it.budget - tokens;
  results =
      it.results
      ++ record {
        seq_id = seq.id;
        was_prefill_chunk = was_prefill;
        tokens_processed = tokens;
        phase_after = seq.phase;
      }
        ∷ [];
}

-- `do_prefill_chunk` behind its first guard, for a chunk that is not empty.
unfoldable pub prefill_by :
    Allocator → Sequence → ℕ → Result record { pages : Allocator; seq : Sequence; chunk : ℕ }
prefill_by pages seq chunk =
    let (pages', fits) = ensure_capacity pages seq.id (size_t (seq.prefill_cursor + chunk)) in
    let seq' : Sequence = record seq { prefill_cursor = size_t (seq.prefill_cursor + chunk) } in
    if fits
    then (if prefill_complete seq'
        then (transition_to seq' decode >>= λ s.
            ok (record { pages = pages'; seq = s; chunk = chunk }))
        else ok (record { pages = pages'; seq = seq'; chunk = chunk }))
    else ok (record { pages = pages'; seq = seq; chunk = 0 })

-- The allocator and the sequence afterwards, and the number of tokens that were processed.
unfoldable pub do_prefill_chunk :
    SchedulerConfig
    → Allocator
    → Sequence
    → ℕ
    → Result record { pages : Allocator; seq : Sequence; chunk : ℕ }
unfolding prefill_by
do_prefill_chunk config pages seq budget =
    if prefill_complete seq
    then (transition_to seq decode >>= λ s. ok (record { pages = pages; seq = s; chunk = 0 }))
    else (let remaining_prompt : ℕ = length seq.prompt_tokens - seq.prefill_cursor in
        let chunk : ℕ = min remaining_prompt (min config.max_prefill_chunk budget) in
        if chunk == 0
        then ok (record { pages = pages; seq = seq; chunk = 0 })
        else prefill_by pages seq chunk)

module _ (clock : ℕ → ℕ) where
  -- One decode step whose blocks are there. The list is what stays in `active_`: the sequence, or
  -- nothing if it finished.
  unfoldable pub emit_token : Iteration → Allocator → Sequence → Result (Iteration × List Sequence)
  unfolding sample_for
  emit_token it pages seq =
      let now : ℕ = clock it.reads in
      let sample : MetricSample = sample_for seq seq.generated_tokens now in
      let seq' : Sequence = record seq {
        last_decode_at = now;
        generated_tokens = seq.generated_tokens ++ placeholder_token ∷ [];
      } in
      let it' : Iteration = record it {
        samples = it.samples ++ sample ∷ [];
        reads = it.reads + 1;
      } in
      if leb seq'.max_new_tokens (length seq'.generated_tokens)
      then (transition_to seq' finished >>= λ s.
          ok (charge it' (free_sequence pages seq.id) s false 1, []))
      else ok (charge it' pages seq' false 1, seq' ∷ [])

  decode_one : Iteration → Sequence → Result (Iteration × List Sequence)
  unfolding emit_token
  decode_one it seq =
      let (pages, fits) = ensure_capacity it.page_table seq.id (size_t (total_tokens seq + 1)) in
      if fits then emit_token it pages seq else ok (record it { page_table = pages }, seq ∷ [])

  -- The body of the first loop, by the sequence's phase.
  pub visit : Iteration → Sequence → SequencePhase → Result (Iteration × List Sequence)
  unfolding decode_one
  visit it seq prefill = ok (it, seq ∷ [])
  visit it seq decode = decode_one it seq
  visit it seq finished = ok (it, seq ∷ [])

  -- 1. One decode step for every active sequence in DECODE.
  pub decode_pass : Iteration → List Sequence → Result (Iteration × List Sequence)
  unfolding visit
  decode_pass it [] = ok (it, [])
  decode_pass it (seq ∷ seqs) =
      if it.budget == 0
      then ok (it, seq ∷ seqs)
      else (visit it seq seq.phase >>= λ (it', kept).
          decode_pass it' seqs >>= λ (it'', rest). ok (it'', kept ++ rest))

module _ (config : SchedulerConfig) where
  pub prefill_one : Iteration → Sequence → Result (Iteration × Sequence × ℕ)
  unfolding do_prefill_chunk
  prefill_one it seq = do_prefill_chunk config it.page_table seq it.budget >>= λ r. ok (
      if r.chunk == 0
      then (record it { page_table = r.pages }, r.seq, 0)
      else (charge it r.pages r.seq true r.chunk, r.seq, r.chunk))

  -- 2. Active sequences that are still in PREFILL.
  pub prefill_visit : Iteration → Sequence → SequencePhase → Result (Iteration × Sequence)
  unfolding prefill_one
  prefill_visit it seq prefill = prefill_one it seq >>= λ (it', seq', chunk). ok (it', seq')
  prefill_visit it seq decode = ok (it, seq)
  prefill_visit it seq finished = ok (it, seq)

  pub prefill_pass : Iteration → List Sequence → Result (Iteration × List Sequence)
  unfolding prefill_visit
  prefill_pass it [] = ok (it, [])
  prefill_pass it (seq ∷ seqs) =
      if it.budget == 0
      then ok (it, seq ∷ seqs)
      else (prefill_visit it seq seq.phase >>= λ (it', seq').
          prefill_pass it' seqs >>= λ (it'', rest). ok (it'', seq' ∷ rest))

  -- 3. The waiting queue, in order, until the budget is spent or the front makes no progress.
  -- The results are the queues `waiting_` and `active_` afterwards.
  pub admit_pass :
      Iteration → List Sequence → List Sequence → Result (Iteration × List Sequence × List Sequence)
  unfolding prefill_one
  admit_pass it [] active = ok (it, [], active)
  admit_pass it (seq ∷ seqs) active =
      if it.budget == 0
      then ok (it, seq ∷ seqs, active)
      else (prefill_one it seq >>= λ (it', seq', chunk).
          if chunk == 0
          then ok (it', seq' ∷ seqs, active)
          else admit_pass it' seqs (active ++ seq' ∷ []))

-- What `step` leaves: the scheduler, and what it returned and recorded.
pub record Stepped : Type 0 where
  pub scheduler : Scheduler
  pub results : List StepResult
  pub samples : List MetricSample

abbrev pub begin : Scheduler → Iteration
begin s = record {
  page_table = s.page_table;
  budget = s.config.max_batch_tokens;
  results = [];
  samples = [];
  reads = s.reads;
}

abbrev pub end : Scheduler → Iteration → List Sequence → List Sequence → Stepped
end s it waiting active = record {
  scheduler = record s {
    page_table = it.page_table;
    waiting = waiting;
    active = active;
    reads = it.reads;
  };
  results = it.results;
  samples = it.samples;
}

unfoldable pub step : (ℕ → ℕ) → Scheduler → Result Stepped
unfolding decode_pass prefill_pass admit_pass
step clock s = decode_pass clock (begin s) s.active >>= λ (it₁, decoded).
    prefill_pass s.config it₁ decoded >>= λ (it₂, prefilled).
    admit_pass s.config it₂ s.waiting prefilled >>= λ (it₃, waiting, active).
    ok (end s it₃ waiting active)
