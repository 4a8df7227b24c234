-- ===== src/Scheduler/Work.antt =====
-- The work that the sequences of scheduler.hpp still are, and the turns that do some of it.
use aether_mo_e.Common.{
  All-append, ℕ, ◌+◌, ◌-◌, ◌^◌, ◌≤◌, ◌<◌, ◌≡◌, refl, false, List, [], ◌∷◌, ◌++◌, All, arith, length,
}
use aether_mo_e.PageTable.Shares.{Room, Ample, blocks_for}
use aether_mo_e.Sequence.{Sequence, prefill}
use aether_mo_e.Scheduler.{Iteration}
use aether_mo_e.Scheduler.Measures.{is_finished, quota, tokens}

-- The prompt tokens that are not processed yet, and the tokens that are not generated yet.
abbrev pub remaining : Sequence → ℕ
remaining q = (length q.prompt_tokens - q.prefill_cursor) + (quota q - length q.generated_tokens)

abbrev pub work : List Sequence → ℕ
work [] = 0
work (q ∷ qs) = remaining q + work qs

pub work-append : (xs ys : List Sequence) → work (xs ++ ys) ≡ work xs + work ys
work-append [] ys = omega arith
work-append (x ∷ xs) ys = omega (arith, work-append xs ys)

-- The blocks that a sequence fills when it has all its tokens.
abbrev pub demand : ℕ → Sequence → ℕ
demand bs q = blocks_for bs (length q.prompt_tokens + quota q)

abbrev pub reserved : ℕ → List Sequence → ℕ
reserved bs [] = 0
reserved bs (q ∷ qs) = demand bs q + reserved bs qs

abbrev pub InPrefill : Sequence → Type 0
InPrefill q = q.phase ≡ prefill

module _ (bs total : ℕ) (share : ℕ → ℕ) where
  -- A sequence that a queue may hold, whose share is its demand.
  pub record IsServable (q : Sequence) : Type 0 where
    pub running : is_finished q.phase ≡ false
    pub owes : length q.generated_tokens < quota q
    pub cursor : q.prefill_cursor ≤ length q.prompt_tokens
    pub early : q.phase ≡ prefill → q.prefill_cursor < length q.prompt_tokens
    pub small : length q.prompt_tokens + quota q + bs ≤ 2 ^ 64
    pub enough : demand bs q ≡ share q.id

  -- From the iteration `it` and the sequences `xs` to `it'` and `xs'`: what is reported as processed
  -- is work that is done.
  pub record Works (it : Iteration) (xs : List Sequence) (it' : Iteration) (xs' : List Sequence)
      : Type 0 where
    pub servable : All IsServable xs'
    pub room : Room bs total share it'.page_table
    pub worked : work xs' + tokens it'.results ≤ work xs + tokens it.results
    pub more : tokens it.results ≤ tokens it'.results
    pub spent : it'.budget + tokens it'.results ≡ it.budget + tokens it.results

  abbrev pub Gains : Iteration → Iteration → Type 0
  Gains it it' = (ks : List ℕ) → Ample bs total share ks → tokens it.results < tokens it'.results

  pub stop-Works :
      (it : Iteration) (xs : List Sequence)
      → All IsServable xs
      → Room bs total share it.page_table
      → Works it xs it xs
  stop-Works it xs v r = record {
    servable = v;
    room = r;
    worked = omega arith;
    more = omega arith;
    spent = refl;
  }

  module _ (it it₁ it₂ : Iteration) (xs ys xs' ys' : List Sequence) where
    pub seq-Works :
        Works it xs it₁ xs' → Works it₁ ys it₂ ys' → Works it (xs ++ ys) it₂ (xs' ++ ys')
    seq-Works s t = record {
      servable = All-append IsServable xs' ys' s.servable t.servable;
      room = t.room;
      worked = omega (arith, s.worked, t.worked, work-append xs ys, work-append xs' ys');
      more = omega (arith, s.more, t.more);
      spent = omega (arith, s.spent, t.spent);
    }
