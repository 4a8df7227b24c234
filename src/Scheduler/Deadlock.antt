-- ===== src/Scheduler/Deadlock.antt =====
-- Iterations of scheduler.hpp when every block is taken and full: there is no preemption.
use aether_mo_e.Common.{
  All-append, ap, sym, ◌∙◌, ℕ, ◌<◌, ◌≡◌, refl, List, [], ◌∷◌, ◌++◌, All, Returns, >>=-Returns,
  Returns-mono, ◌==◌, Bool-cases, inl, inr, append-nil, append_assoc,
}
use aether_mo_e.Sequence.{Sequence}
use aether_mo_e.Scheduler.{
  SchedulerConfig, Scheduler, Iteration, begin, admit, visit, decode_pass, prefill_one,
  prefill_visit, prefill_pass, admit_pass, step,
}
use aether_mo_e.Scheduler.Runs.{Event, admits, steps, Trace, run, admitted}
use aether_mo_e.Scheduler.Work.{InPrefill}
use aether_mo_e.Scheduler.Stalling.{
  Exhausted, IsFull, Stalled, visit-Stalled, prefill_one-Stalled, prefill_visit-Stalled,
}

module _ (bs : ℕ) (blocks : ℕ → ℕ) (pos : 0 < bs) where
  decode_pass-Stalled :
      (clock : ℕ → ℕ) (it : Iteration) (qs : List Sequence)
      → All (IsFull bs blocks) qs
      → Exhausted bs blocks it.page_table
      → Returns (decode_pass clock it qs) (λ r. Stalled bs blocks pos it r.0 × (r.1 ≡ qs))
  unfolding decode_pass
  decode_pass-Stalled clock it [] f x = ((it.page_table, refl, x), refl)
  decode_pass-Stalled clock it (q ∷ qs) f x = elim (Bool-cases (it.budget == 0)) [
    | inl spent ↦ rw spent ((it.page_table, refl, x), refl)
    | inr left ↦ rw left (
        >>=-Returns (visit clock it q q.phase) _ _ _
          (visit-Stalled bs blocks pos clock it q q.phase f.0 refl x)
          λ r ((pages, same, x'), kept).
            >>=-Returns (decode_pass clock r.0 qs) _ _ _
              (decode_pass-Stalled clock r.0 qs f.1 (rw same x'))
              λ t ((pages', same', x''), kept'). (
                (
                  pages',
                  same' ∙ ap (λ (i : Iteration). record i { page_table = pages' }) same,
                  x'',
                ),
                rw (kept, kept') refl,
              ))
  ]

  prefill_pass-Stalled :
      (config : SchedulerConfig) (it : Iteration) (qs : List Sequence)
      → All (IsFull bs blocks) qs
      → Exhausted bs blocks it.page_table
      → Returns (prefill_pass config it qs) (λ r. Stalled bs blocks pos it r.0 × (r.1 ≡ qs))
  unfolding prefill_pass
  prefill_pass-Stalled config it [] f x = ((it.page_table, refl, x), refl)
  prefill_pass-Stalled config it (q ∷ qs) f x = elim (Bool-cases (it.budget == 0)) [
    | inl spent ↦ rw spent ((it.page_table, refl, x), refl)
    | inr left ↦ rw left (
        >>=-Returns (prefill_visit config it q q.phase) _ _ _
          (prefill_visit-Stalled bs blocks pos config it q q.phase f.0 refl x)
          λ r ((pages, same, x'), kept).
            >>=-Returns (prefill_pass config r.0 qs) _ _ _
              (prefill_pass-Stalled config r.0 qs f.1 (rw same x'))
              λ t ((pages', same', x''), kept'). (
                (
                  pages',
                  same' ∙ ap (λ (i : Iteration). record i { page_table = pages' }) same,
                  x'',
                ),
                rw (kept, kept') refl,
              ))
  ]

  admit_pass-Stalled :
      (config : SchedulerConfig) (it : Iteration) (qs active : List Sequence)
      → All (IsFull bs blocks) qs
      → All InPrefill qs
      → Exhausted bs blocks it.page_table
      → Returns
          (admit_pass config it qs active)
          (λ r. Stalled bs blocks pos it r.0 × (r.1 ≡ qs) × (r.2 ≡ active))
  unfolding admit_pass
  admit_pass-Stalled config it [] active f early x = ((it.page_table, refl, x), refl, refl)
  admit_pass-Stalled config it (q ∷ qs) active f early x = elim (Bool-cases (it.budget == 0)) [
    | inl spent ↦ rw spent ((it.page_table, refl, x), refl, refl)
    | inr left ↦ rw left (
        >>=-Returns (prefill_one config it q) _ _ _
          (prefill_one-Stalled bs blocks pos config it q f.0 early.0 x)
          λ r (st, same, nothing). rw (nothing, same) (st, refl, refl))
  ]

  -- A scheduler that has nothing to give and whose sequences all want a block.
  pub record IsDeadlocked (s : Scheduler) : Type 0 where
    pub exhausted : Exhausted bs blocks s.page_table
    pub active : All (IsFull bs blocks) s.active
    pub waiting : All (IsFull bs blocks) s.waiting
    pub early : All InPrefill s.waiting

  step-IsDeadlocked :
      (clock : ℕ → ℕ) (s : Scheduler)
      → IsDeadlocked s
      → Returns (step clock s) (λ t.
        IsDeadlocked t.scheduler
        × (t.results ≡ [])
        × (t.scheduler.active ≡ s.active)
        × (t.scheduler.waiting ≡ s.waiting))
  unfolding step
  step-IsDeadlocked clock s v =
      >>=-Returns (decode_pass clock (begin s) s.active) _ _ _
        (decode_pass-Stalled clock (begin s) s.active v.active v.exhausted)
        λ d ((p₁, e₁, x₁), k₁).
          >>=-Returns (prefill_pass s.config d.0 d.1) _ _ _
            (prefill_pass-Stalled s.config d.0 d.1 (rw k₁ v.active) (rw e₁ x₁))
            λ e ((p₂, e₂, x₂), k₂).
              >>=-Returns (admit_pass s.config e.0 s.waiting e.1) _ _ _
                (admit_pass-Stalled s.config e.0 s.waiting e.1 v.waiting v.early (rw e₂ x₂))
                λ f ((p₃, e₃, x₃), w, a).
                  let kept : f.2 ≡ s.active = a ∙ k₂ ∙ k₁ in
                  (
                    record {
                      exhausted = rw e₃ x₃;
                      active = rw kept v.active;
                      waiting = rw w v.waiting;
                      early = rw w v.early;
                    },
                    rw (e₃, e₂, e₁) refl,
                    kept,
                    w,
                  )

-- Suppose that no block is free, that no queued sequence is finished, that what waits is in PREFILL,
-- and that each sequence has filled its blocks with the tokens processed so far, has prompt tokens
-- left if it is in PREFILL, and is not so long that a sum wraps. Whatever requests like those that
-- wait are admitted later, no iteration throws or reports anything ever again: the active sequences
-- stay as they are, and the waiting queue only grows.
pub run_deadlocked :
    (clock : ℕ → ℕ) (bs : ℕ) (blocks : ℕ → ℕ) (pos : 0 < bs) (t : Trace) (es : List Event)
    → IsDeadlocked bs blocks pos t.scheduler
    → All (λ q. IsFull bs blocks q × InPrefill q) (admitted es)
    → Returns (run clock t es) (λ u.
      (u.results ≡ t.results)
      × (u.scheduler.active ≡ t.scheduler.active)
      × (u.scheduler.waiting ≡ t.scheduler.waiting ++ admitted es))
unfolding run admit
run_deadlocked clock bs blocks pos t [] v new = (refl, refl, sym (append-nil t.scheduler.waiting))
run_deadlocked clock bs blocks pos t (admits q ∷ es) v new =
    Returns-mono (run clock (record t { scheduler = admit t.scheduler q }) es) _ _
      (run_deadlocked clock bs blocks pos (record t { scheduler = admit t.scheduler q }) es
        (record {
          exhausted = v.exhausted;
          active = v.active;
          waiting =
              All-append (IsFull bs blocks) t.scheduler.waiting (q ∷ []) v.waiting (new.0.0, tt);
          early = All-append InPrefill t.scheduler.waiting (q ∷ []) v.early (new.0.1, tt);
        })
        new.1)
      λ u (same, kept, grows).
        (same, kept, grows ∙ append_assoc t.scheduler.waiting (q ∷ []) (admitted es))
run_deadlocked clock bs blocks pos t (steps ∷ es) v new =
    >>=-Returns (step clock t.scheduler) _ _ _ (step-IsDeadlocked bs blocks pos clock t.scheduler v)
      λ r (v', nothing, kept, stays).
        Returns-mono (run clock _ es) _ _ (run_deadlocked clock bs blocks pos _ es v' new)
          λ u (same, kept', grows). (
            same ∙ rw nothing (append-nil t.results),
            kept' ∙ kept,
            grows ∙ ap (λ ws. ws ++ admitted es) stays,
          )
