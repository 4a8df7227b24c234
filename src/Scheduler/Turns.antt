-- ===== src/Scheduler/Turns.antt =====
-- What one sequence's turn in a loop of scheduler.hpp does.
use aether_mo_e.Common.{
  ◌≤◌, not, ℕ, ◌+◌, ◌≡◌, ◌≢◌, refl, Bool, true, false, List, [], ◌∷◌, ◌++◌, arith, ok, length, leb,
  ◌==◌, if◌then◌else◌, length-append,
}
use aether_mo_e.PageTable.{Allocator, free_sequence, blocks_of}
use aether_mo_e.PageTable.Exclusive.{IsExclusive, free_sequence-IsExclusive}
use aether_mo_e.PageTable.Capacity.{free_sequence_lem}
use aether_mo_e.Sequence.{Sequence, decode, finished, transition_to}
use aether_mo_e.Telemetry.{MetricSample}
use aether_mo_e.Scheduler.{StepResult, Iteration, placeholder_token, sample_for, charge, emit_token}
use aether_mo_e.Scheduler.Measures.{
  is_finished, is_ttft, one_if, dead, with_id, owed, unstarted, tokens, ended, decodes, ttfts,
  sampled, tokens-append, ended-append, decodes-append, ttfts-append, sampled-append, has_none,
}

-- From the iteration `it` and the sequences `xs` to `it'` and `xs'`.
pub record Turn (it : Iteration) (xs : List Sequence) (it' : Iteration) (xs' : List Sequence)
    : Type 0 where
  -- No sequence in a queue is finished or has all its tokens.
  pub live : dead xs' ≡ 0
  -- What the budget loses is what the results report.
  pub spent : it'.budget + tokens it'.results ≡ it.budget + tokens it.results
  -- A sequence leaves exactly when a result reports its end.
  pub accounted : (k : ℕ) → ended k it'.results + with_id k xs' ≡ ended k it.results + with_id k xs
  pub fewer : (k : ℕ) → with_id k xs' ≤ with_id k xs
  -- Each decode step pays one of the tokens owed.
  pub paid : (k : ℕ) → decodes k it'.results + owed k xs' ≡ decodes k it.results + owed k xs
  -- The first token, and no other, is timed as TTFT; every token is timed.
  pub first : (k : ℕ) → ttfts k it'.samples + unstarted k xs' ≡ ttfts k it.samples + unstarted k xs
  pub timed :
      (k : ℕ)
      → sampled k it'.samples + decodes k it.results ≡ sampled k it.samples + decodes k it'.results

-- The blocks: none is lost or shared, another sequence's are left alone, and one that leaves keeps
-- none.
pub record Pages (it : Iteration) (xs : List Sequence) (it' : Iteration) (xs' : List Sequence)
    : Type 0 where
  pub exclusive : IsExclusive it'.page_table
  pub others : (k : ℕ) → with_id k xs ≡ 0 → blocks_of it'.page_table k ≡ blocks_of it.page_table k
  pub freed : (k : ℕ) → with_id k xs ≡ 1 → with_id k xs' ≡ 0 → blocks_of it'.page_table k ≡ []

-- A sample is the sequence's own, and is a TTFT exactly if there is no token yet.
sample_for_lem :
    (q : Sequence) (ts : List ℕ) (now : ℕ)
    → ((sample_for q ts now).seq_id ≡ q.id) × (is_ttft (sample_for q ts now).kind ≡ has_none ts)
unfolding sample_for
sample_for_lem q [] now = (refl, refl)
sample_for_lem q (t ∷ ts) now = (refl, refl)

has_none-append : (ts : List ℕ) (t : ℕ) → has_none (ts ++ t ∷ []) ≡ false
has_none-append [] t = refl
has_none-append (x ∷ ts) t = refl

-- What one more result adds to the sums.
pub charge-counts :
    (it : Iteration) (p : Allocator) (q : Sequence) (w : Bool) (n k : ℕ)
    → let rs = (charge it p q w n).results in
      (tokens rs ≡ tokens it.results + n)
      × (decodes k rs ≡ decodes k it.results + (if q.id == k then one_if (not w) else 0))
      × (ended k rs ≡ ended k it.results + (if q.id == k then one_if (is_finished q.phase) else 0))
charge-counts it p q w n k =
    let r : StepResult = record {
      seq_id = q.id;
      was_prefill_chunk = w;
      tokens_processed = n;
      phase_after = q.phase;
    } in
    omega (
      arith,
      tokens-append it.results (r ∷ []),
      decodes-append k it.results (r ∷ []),
      ended-append k it.results (r ∷ []),
    )

module _ (clock : ℕ → ℕ) (it : Iteration) (pages : Allocator) (q : Sequence) where
  -- The sequence with one more token, and the iteration with its sample.
  abbrev pub grown : Sequence
  grown = record q {
    last_decode_at = clock it.reads;
    generated_tokens = q.generated_tokens ++ placeholder_token ∷ [];
  }

  abbrev pub timed_it : Iteration
  timed_it = record it {
    samples = it.samples ++ sample_for q q.generated_tokens (clock it.reads) ∷ [];
    reads = it.reads + 1;
  }

  pub emit_token_lem :
      q.phase ≡ decode
      → emit_token clock it pages q ≡ (
          if leb q.max_new_tokens (length q.generated_tokens + 1)
          then ok (
            charge timed_it (free_sequence pages q.id) (record grown { phase = finished }) false 1,
            [],
          )
          else ok (charge timed_it pages grown false 1, grown ∷ []))
  unfolding emit_token transition_to
  emit_token_lem e = ground (arith, length-append q.generated_tokens (placeholder_token ∷ []))

  abbrev sample : MetricSample
  sample = sample_for q q.generated_tokens (clock it.reads)

  sampled-timed_it :
      (k : ℕ)
      → (sampled k timed_it.samples ≡ sampled k it.samples + one_if (q.id == k))
        × (ttfts k timed_it.samples
            ≡ ttfts k it.samples + (if q.id == k then one_if (has_none q.generated_tokens) else 0))
  sampled-timed_it k = ground (
    arith,
    sampled-append k it.samples (sample ∷ []),
    ttfts-append k it.samples (sample ∷ []),
    sample_for_lem q q.generated_tokens (clock it.reads),
  )

  module _ (e : q.phase ≡ decode) (live : dead (q ∷ []) ≡ 0) (pos : it.budget ≢ 0) where
    pub last_token-Turn :
        leb q.max_new_tokens (length q.generated_tokens + 1) ≡ true
        → Turn it
            (q ∷ [])
            (charge timed_it (free_sequence pages q.id) (record grown { phase = finished }) false 1)
            []
    last_token-Turn full =
        let c =
          charge-counts timed_it (free_sequence pages q.id) (record grown { phase = finished })
            false 1 in
        record {
          live = refl;
          spent = omega (arith, (c 0).0);
          accounted = λ k. ground (arith, c k);
          fewer = λ k. ground arith;
          paid = λ k. ground (arith, c k);
          first = λ k. ground (arith, sampled-timed_it k);
          timed = λ k. ground (arith, sampled-timed_it k, c k);
        }

    pub next_token-Turn :
        leb q.max_new_tokens (length q.generated_tokens + 1) ≡ false
        → Turn it (q ∷ []) (charge timed_it pages grown false 1) (grown ∷ [])
    next_token-Turn more =
        let c = charge-counts timed_it pages grown false 1 in
        let l = length-append q.generated_tokens (placeholder_token ∷ []) in
        record {
          live = ground (arith, l);
          spent = omega (arith, (c 0).0);
          accounted = λ k. ground (arith, c k);
          fewer = λ k. ground arith;
          paid = λ k. ground (arith, c k, l);
          first = λ k.
              ground
                (arith, sampled-timed_it k, has_none-append q.generated_tokens placeholder_token);
          timed = λ k. ground (arith, sampled-timed_it k, c k);
        }

-- A sum over a list with one sequence tells its id.
with_id_single : (k : ℕ) (q : Sequence) → with_id k (q ∷ []) ≡ 0 → q.id ≢ k
with_id_single k q h e = ground arith

-- How a turn of `q` may change the blocks while `q` stays.
module _ (it it' : Iteration) (q : Sequence) (pages : Allocator) where
  pub stay-Pages :
      (q' : Sequence)
      → IsExclusive pages
      → ((k : ℕ) → q.id ≢ k → blocks_of pages k ≡ blocks_of it.page_table k)
      → q'.id ≡ q.id
      → it'.page_table ≡ pages
      → Pages it (q ∷ []) it' (q' ∷ [])
  stay-Pages q' v others same e = record {
    exclusive = rw e v;
    others = λ k h. rw e (others k (with_id_single k q h));
    freed = λ k h h'. ground (arith, h, h');
  }

  pub leave-Pages :
      IsExclusive pages
      → ((k : ℕ) → q.id ≢ k → blocks_of pages k ≡ blocks_of it.page_table k)
      → it'.page_table ≡ free_sequence pages q.id
      → Pages it (q ∷ []) it' []
  leave-Pages v others e =
      let freed = λ (k : ℕ). (free_sequence_lem pages q.id k (v.keys q.id)).0 in
      record {
        exclusive = rw e (free_sequence-IsExclusive pages q.id v);
        others = λ k h. rw e (ground (arith, freed k, with_id_single k q h, others k));
        freed = λ k h h'. rw e (ground (arith, freed k));
      }
