-- ===== src/Scheduler/Runs.antt =====
-- Histories of a scheduler: sequences are admitted and iterations run, in any order.
use native.Mathlib.Decide.{ℕ_discrete}
use aether_mo_e.Common.{
  ◌^◌, Returns-eq_ok, ap, ℕ, ◌+◌, ◌≤◌, ◌≡◌, refl, List, [], ◌∷◌, ◌++◌, arith, Result, ok, ◌>>=◌,
  Returns, >>=-Returns, Returns-mono, append_assoc, append-nil, ◌∙◌,
}
use aether_mo_e.PageTable.{create, Allocator, blocks_of, free_block_count}
use aether_mo_e.PageTable.Exclusive.{create-IsExclusive, blocks_of-create, IsExclusive}
use aether_mo_e.PageTable.Tables.{size-eq_zero}
use aether_mo_e.Sequence.{Sequence}
use aether_mo_e.Telemetry.{MetricSample}
use aether_mo_e.Scheduler.{Scheduler, SchedulerConfig, StepResult, admit, step, Stepped, begin}
use aether_mo_e.Scheduler.Measures.{
  dead, with_id, owed, unstarted, ended, decodes, ttfts, sampled, tokens, dead-append,
  with_id-append, owed-append, unstarted-append, ended-append, decodes-append, ttfts-append,
  sampled-append,
}
use aether_mo_e.Scheduler.Visits.{Advances}
use aether_mo_e.Scheduler.Steps.{queued, last, step-Advances}

pub data Event : Type 0 where
  admits : Sequence → Event
  steps : Event

-- A scheduler with all that its iterations have returned and recorded so far.
pub record Trace : Type 0 where
  pub scheduler : Scheduler
  pub results : List StepResult
  pub samples : List MetricSample

abbrev pub start : SchedulerConfig → Allocator → Trace
start config pages = record {
  scheduler = record { config = config; page_table = pages; waiting = []; active = []; reads = 0 };
  results = [];
  samples = [];
}

unfoldable pub run : (ℕ → ℕ) → Trace → List Event → Result Trace
unfolding step admit
run clock t [] = ok t
run clock t (admits q ∷ es) = run clock (record t { scheduler = admit t.scheduler q }) es
run clock t (steps ∷ es) = step clock t.scheduler >>= λ r.
    run clock
      (record {
        scheduler = r.scheduler;
        results = t.results ++ r.results;
        samples = t.samples ++ r.samples;
      })
      es

-- The sequences of a history, oldest first.
abbrev pub admitted : List Event → List Sequence
admitted [] = []
admitted (admits q ∷ es) = q ∷ admitted es
admitted (steps ∷ es) = admitted es

-- What a trace owes to the sequences `qs` that were admitted.
pub record Ledger (t : Trace) (qs : List Sequence) : Type 0 where
  pub live : dead (queued t.scheduler) ≡ 0
  pub exclusive : IsExclusive t.scheduler.page_table
  -- Each is in a queue or was reported as finished.
  pub accounted : (k : ℕ) → ended k t.results + with_id k (queued t.scheduler) ≡ with_id k qs
  -- Each token asked for was produced or is still owed.
  pub paid : (k : ℕ) → decodes k t.results + owed k (queued t.scheduler) ≡ owed k qs
  -- The first token of each was timed as TTFT, or is still to come; and every token was timed.
  pub first : (k : ℕ) → ttfts k t.samples + unstarted k (queued t.scheduler) ≡ unstarted k qs
  pub timed : (k : ℕ) → sampled k t.samples ≡ decodes k t.results
  -- With distinct ids, only a queued sequence has blocks.
  pub idle :
      ((k : ℕ) → with_id k qs ≤ 1)
      → (k : ℕ) → with_id k (queued t.scheduler) ≡ 0
      → blocks_of t.scheduler.page_table k ≡ []

pub admit-Ledger :
    (t : Trace) (qs : List Sequence) (q : Sequence)
    → dead (q ∷ []) ≡ 0
    → Ledger t qs
    → Ledger (record t { scheduler = admit t.scheduler q }) (qs ++ q ∷ [])
unfolding admit
admit-Ledger t qs q live l =
    let old : List Sequence = queued t.scheduler in
    let same = append_assoc t.scheduler.active t.scheduler.waiting (q ∷ []) in
    record {
      live = rw (← same) (omega (arith, dead-append old (q ∷ []), l.live));
      exclusive = l.exclusive;
      accounted = λ k. rw (← same) (
          omega
            (arith, with_id-append k old (q ∷ []), with_id-append k qs (q ∷ []), l.accounted k));
      paid = λ k.
          rw (← same)
            (omega (arith, owed-append k old (q ∷ []), owed-append k qs (q ∷ []), l.paid k));
      first = λ k. rw (← same) (
          omega
            (arith, unstarted-append k old (q ∷ []), unstarted-append k qs (q ∷ []), l.first k));
      timed = l.timed;
      idle = λ one k none_left.
          l.idle (λ j. omega (arith, one j, with_id-append j qs (q ∷ []))) k
            (omega (arith, with_id-append k old (q ∷ []), ap (with_id k) same));
    }

pub step-Ledger :
    (t : Trace) (qs : List Sequence) (r : Stepped) (budget : ℕ)
    → Advances (begin t.scheduler) (queued t.scheduler) (last r budget) (queued r.scheduler)
    → Ledger t qs
    → Ledger
        (record {
          scheduler = r.scheduler;
          results = t.results ++ r.results;
          samples = t.samples ++ r.samples;
        })
        qs
step-Ledger t qs r budget (turn, pages) l = record {
  live = turn.live;
  exclusive = pages.exclusive;
  accounted =
      λ k. omega (arith, ended-append k t.results r.results, turn.accounted k, l.accounted k);
  paid = λ k. omega (arith, decodes-append k t.results r.results, turn.paid k, l.paid k);
  first = λ k. omega (arith, ttfts-append k t.samples r.samples, turn.first k, l.first k);
  timed = λ k. omega (
    arith,
    sampled-append k t.samples r.samples,
    decodes-append k t.results r.results,
    turn.timed k,
    l.timed k,
  );
  idle = λ one k none_left. elim (ℕ_discrete (with_id k (queued t.scheduler)) 0) [
    | yes before ↦ pages.others k before ∙ l.idle one k before
    | no held ↦ pages.freed k (omega (arith, one k, l.accounted k)) none_left
  ];
}

-- No history makes the scheduler throw, and the books always balance.
pub run-Ledger :
    (clock : ℕ → ℕ) (t : Trace) (qs : List Sequence) (es : List Event)
    → dead (admitted es) ≡ 0
    → Ledger t qs
    → Returns (run clock t es) (λ u. Ledger u (qs ++ admitted es))
unfolding run
run-Ledger clock t qs [] live l = rw (append-nil qs) l
run-Ledger clock t qs (admits q ∷ es) live l = rw (← append_assoc qs (q ∷ []) (admitted es)) (
    run-Ledger clock (record t { scheduler = admit t.scheduler q }) (qs ++ q ∷ []) es (omega arith)
      (admit-Ledger t qs q (omega arith) l))
run-Ledger clock t qs (steps ∷ es) live l =
    >>=-Returns (step clock t.scheduler) _ _ _ (step-Advances clock t.scheduler l.live l.exclusive)
      λ r a. run-Ledger clock _ qs es live (step-Ledger t qs r a.0 a.1 l)

-- The start owes nothing to anybody.
pub start-Ledger :
    (config : SchedulerConfig) (bs n : ℕ) {pages : Allocator}
    → n ≤ 2 ^ 31
    → create bs n ≡ ok pages
    → Ledger (start config pages) []
start-Ledger config bs n h e = record {
  live = refl;
  exclusive = create-IsExclusive bs n (omega arith) e;
  accounted = λ k. refl;
  paid = λ k. refl;
  first = λ k. refl;
  timed = λ k. refl;
  idle = λ one k empty. blocks_of-create bs n e k;
}

-- A history of requests that owe a token, on a new allocator, always runs to a result. Then each
-- request is in a queue or reported as finished, as often as it was admitted; each has had as many
-- decode steps as it is owed tokens fewer; the first token of each, and no other, was timed as TTFT;
-- and every decode step was timed.
pub run_accounts :
    (clock : ℕ → ℕ) (config : SchedulerConfig) (bs n : ℕ) {pages : Allocator} (es : List Event)
    → n ≤ 2 ^ 31
    → create bs n ≡ ok pages
    → dead (admitted es) ≡ 0
    → Returns (run clock (start config pages) es) (λ u.
      (k : ℕ)
      → (ended k u.results + with_id k (queued u.scheduler) ≡ with_id k (admitted es))
        × (decodes k u.results + owed k (queued u.scheduler) ≡ owed k (admitted es))
        × (ttfts k u.samples + unstarted k (queued u.scheduler) ≡ unstarted k (admitted es))
        × (sampled k u.samples ≡ decodes k u.results))
run_accounts clock config bs n {pages} es h e live =
    Returns-mono (run clock (start config pages) es) _ _
      (run-Ledger clock (start config pages) [] es live (start-Ledger config bs n h e))
      λ u l k. (l.accounted k, l.paid k, l.first k, l.timed k)

with_id-eq_zero : (k : ℕ) (qs : List Sequence) → qs ≡ [] → with_id k qs ≡ 0
with_id-eq_zero k qs e = rw e

pub Ledger-leak_free :
    (t : Trace) (qs : List Sequence)
    → Ledger t qs
    → ((k : ℕ) → with_id k qs ≤ 1)
    → queued t.scheduler ≡ []
    → free_block_count t.scheduler.page_table ≡ t.scheduler.page_table.num_blocks
unfolding free_block_count blocks_of
Ledger-leak_free t qs l one empty = omega (
  arith,
  l.exclusive.all,
  size-eq_zero t.scheduler.page_table.tables l.exclusive.keys
      (λ k. l.idle one k (with_id-eq_zero k _ empty)),
)

-- No block leaks: if the ids of the requests are distinct, then whenever a history has emptied the
-- queues, all physical blocks are on the free stack.
pub run_leak_free :
    (clock : ℕ → ℕ) (config : SchedulerConfig) (bs n : ℕ) {pages : Allocator} (es : List Event)
    {u : Trace}
    → n ≤ 2 ^ 31
    → create bs n ≡ ok pages
    → dead (admitted es) ≡ 0
    → ((k : ℕ) → with_id k (admitted es) ≤ 1)
    → run clock (start config pages) es ≡ ok u
    → queued u.scheduler ≡ []
    → free_block_count u.scheduler.page_table ≡ u.scheduler.page_table.num_blocks
run_leak_free clock config bs n {pages} es {u} h e live one done empty =
    Ledger-leak_free u (admitted es)
      (Returns-eq_ok (run clock (start config pages) es) (λ t. Ledger t (admitted es))
        (run-Ledger clock (start config pages) [] es live (start-Ledger config bs n h e)) done)
      one empty

-- If no queued sequence is finished, and blocks are each in one place, an iteration does not throw,
-- and its reports add up to no more than the configured budget.
pub step_budget :
    (clock : ℕ → ℕ) (s : Scheduler)
    → dead (queued s) ≡ 0
    → IsExclusive s.page_table
    → Returns (step clock s) (λ t. tokens t.results ≤ s.config.max_batch_tokens)
step_budget clock s live v =
    Returns-mono (step clock s) _ _ (step-Advances clock s live v)
      (λ t a. omega (arith, a.1.0.spent))
