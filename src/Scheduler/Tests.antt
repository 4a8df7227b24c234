-- ===== src/Scheduler/Tests.antt =====
-- Runs of the scheduler on small inputs: three blocks of four tokens, a budget of five tokens.
use aether_mo_e.Common.{
  ℕ, zero, suc, ◌+◌, ◌≤◌, ◌≡◌, refl, List, [], ◌∷◌, ◌++◌, length, map, arith, ok, Result, ◌>>=◌,
  Returns, All, replicate,
}
use aether_mo_e.PageTable.{
  Allocator, ensure_capacity, free_sequence, free_block_count, blocks_of, create as create_pages,
}
use aether_mo_e.PageTable.Exclusive.{IsExclusive, create-IsExclusive}
use aether_mo_e.Sequence.{Sequence, SequencePhase, prefill, decode, finished, create, transition_to}
use aether_mo_e.Scheduler.{Scheduler, SchedulerConfig, StepResult, step, admit, do_prefill_chunk}
use aether_mo_e.Scheduler.Measures.{
  with_id, owed, unstarted, ended, decodes, ttfts, sampled, tokens,
}
use aether_mo_e.Scheduler.Steps.{queued}
use aether_mo_e.Scheduler.Runs.{
  Event, admits, steps, Trace, start, run, admitted, run_accounts, run_leak_free, step_budget,
}
use aether_mo_e.Scheduler.Blocking.{IsBlocked, empty_prompt_blocks}
use aether_mo_e.Scheduler.Soundness.{IsRequest}
use aether_mo_e.Scheduler.Stalling.{IsFull}
use aether_mo_e.Scheduler.Deadlock.{IsDeadlocked, run_deadlocked}
use aether_mo_e.Scheduler.Liveness.{run_drains}
use aether_mo_e.Scheduler.Progress.{Progress, do_prefill_chunk-Progress}

abbrev pages : Allocator
pages = record { block_size = 4; num_blocks = 3; free_blocks = 0 ∷ 1 ∷ 2 ∷ []; tables = [] }

pages-new : create_pages 4 3 ≡ ok pages
unfolding create_pages
pages-new = refl

pages-IsExclusive : IsExclusive pages
pages-IsExclusive = create-IsExclusive 4 3 (omega arith) pages-new

abbrev clock : ℕ → ℕ
clock n = n

abbrev config : SchedulerConfig
config = record { max_batch_tokens = 5; max_prefill_chunk = 3 }

abbrev long_request : Sequence
long_request = record {
  id = 7;
  phase = prefill;
  prompt_tokens = 1 ∷ 2 ∷ 3 ∷ 4 ∷ [];
  generated_tokens = [];
  max_new_tokens = 2;
  prefill_cursor = 0;
  owned_blocks = [];
  admitted_at = 0;
  last_decode_at = 0;
}

abbrev short_request : Sequence
short_request = record long_request { id = 8; prompt_tokens = 1 ∷ []; max_new_tokens = 0 }

abbrev loaded : Scheduler
loaded = record {
  config = config;
  page_table = pages;
  waiting = long_request ∷ short_request ∷ [];
  active = [];
  reads = 0;
}

abbrev history : List Event
history = admits long_request ∷ admits short_request ∷ steps ∷ steps ∷ steps ∷ steps ∷ []

-- The results of a number of iterations, a list for each.
summary : Scheduler → ℕ → Result (List (List (ℕ × SequencePhase × ℕ)))
unfolding step ensure_capacity free_sequence transition_to
summary s zero = ok []
summary s (suc n) = step clock s >>= λ r. summary r.scheduler n >>= λ rest.
    ok (map (λ (x : StepResult). (x.seq_id, x.phase_after, x.tokens_processed)) r.results ∷ rest)

-- The request for 0 tokens gets one.
first_rounds :
    summary loaded 4
    ≡ ok (
        ((7, prefill, 3) ∷ (8, decode, 1) ∷ [])
        ∷ ((8, finished, 1) ∷ (7, decode, 1) ∷ [])
        ∷ ((7, decode, 1) ∷ [])
        ∷ ((7, finished, 1) ∷ [])
        ∷ [])
unfolding summary
first_rounds = refl

run_accounts_example : Returns (run clock (start config pages) history) (λ u.
    (k : ℕ)
    → (ended k u.results + with_id k (queued u.scheduler) ≡ with_id k (admitted history))
      × (decodes k u.results + owed k (queued u.scheduler) ≡ owed k (admitted history))
      × (ttfts k u.samples + unstarted k (queued u.scheduler) ≡ unstarted k (admitted history))
      × (sampled k u.samples ≡ decodes k u.results))
run_accounts_example = run_accounts clock config 4 3 history (omega arith) pages-new refl

-- The state after `history`.
drained : Trace
unfolding run step ensure_capacity free_sequence transition_to
drained = after (run clock (start config pages) history)
  where
    after : Result Trace → Trace
    after (ok t) = t
    after (Result.err e) = start config pages

distinct : (k : ℕ) → with_id k (admitted history) ≤ 1
distinct k = ground arith

run_leak_free_example : free_block_count drained.scheduler.page_table ≡ 3
unfolding drained
run_leak_free_example =
    run_leak_free clock config 4 3 history (omega arith) pages-new refl distinct refl refl

step_budget_example : Returns (step clock loaded) (λ t. tokens t.results ≤ 5)
step_budget_example = step_budget clock loaded refl pages-IsExclusive

empty_prompt_blocks_example :
    Returns
      (run clock (start config pages) (admits (create 9 [] 16 0) ∷ history))
      (λ u. IsBlocked 9 (long_request ∷ short_request ∷ []) u.scheduler.waiting)
empty_prompt_blocks_example =
    empty_prompt_blocks clock config 4 3 9 16 0 history (omega arith) pages-new refl

do_prefill_chunk-Progress_example :
    Returns (do_prefill_chunk config pages long_request 5) (Progress pages long_request 3)
do_prefill_chunk-Progress_example =
    do_prefill_chunk-Progress pages long_request refl (omega arith) (omega arith) (omega arith)
      config 5

-- One request is half served when the other comes.
abbrev busy_history : List Event
busy_history = admits long_request ∷ steps ∷ admits short_request ∷ []

busy : Trace
unfolding run step ensure_capacity free_sequence transition_to admit
busy = after (run clock (start config pages) busy_history)
  where
    after : Result Trace → Trace
    after (ok t) = t
    after (Result.err e) = start config pages

requests : All (IsRequest 4) (admitted busy_history)
unfolding create
requests = (
  record { fresh = refl; prompt = omega arith; small = omega arith },
  (record { fresh = refl; prompt = omega arith; small = omega arith }, tt),
)

busy-distinct : (k : ℕ) → with_id k (admitted busy_history) ≤ 1
busy-distinct k = ground arith

run_drains_example : Returns (run clock busy (replicate 6 steps)) (λ v.
    (queued v.scheduler ≡ [])
    × (free_block_count v.scheduler.page_table ≡ 3)
    × ((k : ℕ)
        → (ended k v.results ≡ with_id k (admitted busy_history))
          × (decodes k v.results ≡ owed k (admitted busy_history))))
unfolding busy
run_drains_example =
    run_drains clock config 4 3 6 busy_history (omega arith) pages-new (omega arith) (omega arith)
      requests busy-distinct refl (omega arith) (omega arith)

-- Two requests of eight tokens take the two blocks that there are, one each, and wait for a second.
abbrev wide_config : SchedulerConfig
wide_config = record { max_batch_tokens = 8; max_prefill_chunk = 4 }

abbrev two_blocks : Allocator
two_blocks = record { block_size = 4; num_blocks = 2; free_blocks = 0 ∷ 1 ∷ []; tables = [] }

abbrev wide_request : ℕ → Sequence
wide_request k = record long_request { id = k; prompt_tokens = replicate 8 1 }

jammed : Trace
unfolding run step ensure_capacity free_sequence transition_to admit
jammed = after (
    run clock (start wide_config two_blocks)
      (admits (wide_request 7) ∷ admits (wide_request 8) ∷ steps ∷ []))
  where
    after : Result Trace → Trace
    after (ok t) = t
    after (Result.err e) = start wide_config two_blocks

abbrev blocks_then : ℕ → ℕ
blocks_then k = length (blocks_of jammed.scheduler.page_table k)

jammed-IsDeadlocked : IsDeadlocked 4 blocks_then (omega arith) jammed.scheduler
unfolding jammed blocks_of free_block_count
jammed-IsDeadlocked = record {
  exhausted = record { size = refl; taken = refl; owned = λ k. refl };
  active = (
    record { running = refl; early = λ e. omega arith; small = omega arith; full = omega arith },
    (
      record { running = refl; early = λ e. omega arith; small = omega arith; full = omega arith },
      tt,
    ),
  );
  waiting = tt;
  early = tt;
}

late_request-IsFull : IsFull 4 blocks_then (wide_request 9)
unfolding jammed blocks_of
late_request-IsFull = record {
  running = refl;
  early = λ e. omega arith;
  small = omega arith;
  full = omega arith;
}

run_deadlocked_example :
    Returns (run clock jammed (steps ∷ admits (wide_request 9) ∷ steps ∷ [])) (λ u.
      (u.results ≡ jammed.results)
      × (u.scheduler.active ≡ jammed.scheduler.active)
      × (u.scheduler.waiting ≡ jammed.scheduler.waiting ++ wide_request 9 ∷ []))
run_deadlocked_example =
    run_deadlocked clock 4 blocks_then (omega arith) jammed
      (steps ∷ admits (wide_request 9) ∷ steps ∷ []) jammed-IsDeadlocked
      ((late_request-IsFull, refl), tt)
