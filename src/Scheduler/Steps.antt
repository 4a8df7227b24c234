-- ===== src/Scheduler/Steps.antt =====
-- `step` of scheduler.hpp as a whole.
use native.Mathlib.Decide.{ℕ_discrete}
use aether_mo_e.Common.{ℕ, ◌≡◌, refl, ◌∙◌, List, ◌++◌, arith, Returns, >>=-Returns, append_assoc}
use aether_mo_e.PageTable.Exclusive.{IsExclusive}
use aether_mo_e.Sequence.{Sequence}
use aether_mo_e.Scheduler.{
  Iteration, decode_pass, prefill_pass, admit_pass, step, Scheduler, begin, Stepped,
}
use aether_mo_e.Scheduler.Measures.{dead, with_id, dead-append}
use aether_mo_e.Scheduler.Visits.{Advances}
use aether_mo_e.Scheduler.Passes.{
  seq-Advances, decode_pass-Advances, prefill_pass-Advances, admit_pass-Advances,
}

-- One loop after another over the same sequences.
trans-Advances :
    (it it₁ it₂ : Iteration) (xs ys zs : List Sequence)
    → Advances it xs it₁ ys
    → Advances it₁ ys it₂ zs
    → Advances it xs it₂ zs
trans-Advances it it₁ it₂ xs ys zs (s, p) (t, u) = (
  record {
    live = t.live;
    spent = omega (arith, s.spent, t.spent);
    accounted = λ k. omega (arith, s.accounted k, t.accounted k);
    fewer = λ k. omega (arith, s.fewer k, t.fewer k);
    paid = λ k. omega (arith, s.paid k, t.paid k);
    first = λ k. omega (arith, s.first k, t.first k);
    timed = λ k. omega (arith, s.timed k, t.timed k);
  },
  record {
    exclusive = u.exclusive;
    others = λ k h. u.others k (omega (arith, s.fewer k)) ∙ p.others k h;
    freed = λ k h h'. elim (ℕ_discrete (with_id k ys) 0) [
      | yes gone ↦ u.others k gone ∙ p.freed k h gone
      | no stays ↦ u.freed k (omega (arith, s.fewer k)) h'
    ];
  },
)

-- All that the scheduler holds.
abbrev pub queued : Scheduler → List Sequence
queued s = s.active ++ s.waiting

-- The iteration that a result of `step` describes.
abbrev pub last : Stepped → ℕ → Iteration
last t budget = record {
  page_table = t.scheduler.page_table;
  budget = budget;
  results = t.results;
  samples = t.samples;
  reads = t.scheduler.reads;
}

-- A whole iteration does not throw, and is such an advance over all that is queued.
pub step-Advances :
    (clock : ℕ → ℕ) (s : Scheduler)
    → dead (queued s) ≡ 0
    → IsExclusive s.page_table
    → Returns (step clock s) (λ t.
      (budget : ℕ) × Advances (begin s) (queued s) (last t budget) (queued t.scheduler)
      × (t.scheduler.config ≡ s.config))
unfolding step
step-Advances clock s live v =
    let parts = dead-append s.active s.waiting in
    >>=-Returns (decode_pass clock (begin s) s.active) _ (λ r. Advances (begin s) s.active r.0 r.1)
      _ (decode_pass-Advances clock (begin s) s.active (omega (arith, parts)) v)
      λ d p.
        >>=-Returns (prefill_pass s.config d.0 d.1) _ (λ r. Advances d.0 d.1 r.0 r.1) _
          (prefill_pass-Advances s.config d.0 d.1 p.0.live p.1.exclusive)
          λ e q.
            >>=-Returns (admit_pass s.config e.0 s.waiting e.1) _
              (λ r.
                (gone : List Sequence) × Advances e.0 s.waiting r.0 (gone ++ r.1)
                × (r.2 ≡ e.1 ++ gone))
              _
              (admit_pass-Advances s.config e.0 s.waiting e.1 (omega (arith, parts)) q.1.exclusive)
              λ f g. (
                f.0.budget,
                rw (g.2, append_assoc e.1 g.0 f.1)
                    (seq-Advances (begin s) e.0 f.0 s.active s.waiting e.1 (g.0 ++ f.1)
                      (trans-Advances (begin s) d.0 e.0 s.active d.1 e.1 p q) g.1),
                refl,
              )
