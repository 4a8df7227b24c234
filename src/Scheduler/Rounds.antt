-- ===== src/Scheduler/Rounds.antt =====
-- `step` of scheduler.hpp as work done, over queues that are sound.
use native.Mathlib.Decide.{ℕ_discrete}
use aether_mo_e.Common.{
  All-append, ap, sym, ◌∙◌, ℕ, ◌+◌, ◌≤◌, ◌<◌, ◌≡◌, ◌≢◌, refl, List, [], ◌∷◌, ◌++◌, arith, All,
  Returns, >>=-Returns, inl, inr, ◌⊎◌,
}
use aether_mo_e.PageTable.Shares.{Room, Ample}
use aether_mo_e.Sequence.{Sequence}
use aether_mo_e.Scheduler.{Scheduler, Iteration, begin, decode_pass, prefill_pass, admit_pass, step}
use aether_mo_e.Scheduler.Measures.{tokens}
use aether_mo_e.Scheduler.Steps.{queued}
use aether_mo_e.Scheduler.Work.{InPrefill, work, work-append, IsServable, Works, Gains}
use aether_mo_e.Scheduler.Draining.{Idle, decode_pass-Works, prefill_pass-Works, admit_pass-Works}

cons_ne_nil : (q : Sequence) (qs : List Sequence) → q ∷ qs ≢ []
cons_ne_nil q qs e = absurd (cc)

module _ (bs total : ℕ) (share : ℕ → ℕ) (pos : 0 < bs) where
  -- What a scheduler keeps between iterations.
  pub record Sound (s : Scheduler) : Type 0 where
    pub active : All (IsServable bs total share) s.active
    pub waiting : All (IsServable bs total share) s.waiting
    pub early : All InPrefill s.waiting
    pub room : Room bs total share s.page_table

  All-append_inv :
      (xs ys : List Sequence)
      → All (IsServable bs total share) (xs ++ ys)
      → All (IsServable bs total share) xs × All (IsServable bs total share) ys
  All-append_inv [] ys v = (tt, v)
  All-append_inv (x ∷ xs) ys v = let rest = All-append_inv xs ys v.1 in ((v.0, rest.0), rest.1)

  -- If the first loop gained nothing, the second did on an active sequence, or the third on a
  -- waiting one.
  step-Gains :
      (it it₁ it₂ it₃ : Iteration) (active waiting xs ys rest : List Sequence)
      → active ++ waiting ≢ []
      → it.budget ≢ 0
      → Works bs total share it active it₁ xs
      → Works bs total share it₁ xs it₂ ys
      → Works bs total share it₂ waiting it₃ rest
      → Gains bs total share it it₁ ⊎ Idle bs total share pos it active it₁ xs
      → (All InPrefill xs → xs ≢ [] → it₁.budget ≢ 0 → Gains bs total share it₁ it₂)
      → (waiting ≢ [] → it₂.budget ≢ 0 → Gains bs total share it₂ it₃)
      → Gains bs total share it it₃
  step-Gains it it₁ it₂ it₃ active waiting xs ys rest some_left left w₁ w₂ w₃ (inl gain) prefills
        admits ks ample =
      omega (arith, gain ks ample, w₂.more, w₃.more)
  step-Gains it it₁ it₂ it₃ [] waiting xs ys rest some_left left w₁ w₂ w₃ (inr idle) prefills admits
        ks ample =
      elim (ℕ_discrete (tokens it₂.results) (tokens it.results)) [
        | yes e ↦ omega (
          arith,
          admits some_left (λ z. left (omega (arith, w₁.spent, w₂.spent))) ks ample,
          w₁.more,
          w₂.more,
        )
        | no ne ↦ omega (arith, w₁.more, w₂.more, w₃.more)
      ]
  step-Gains it it₁ it₂ it₃ (q ∷ active) waiting xs ys rest some_left left w₁ w₂ w₃
        (inr (early, same, stays)) prefills admits ks ample =
      omega (
        arith,
        w₁.more,
        w₃.more,
        prefills (rw stays early) (λ e. cons_ne_nil q active (sym stays ∙ e))
            (λ e. left (ap (λ (x : Iteration). x.budget) (sym same) ∙ e)) ks ample,
      )

  -- An iteration over sound queues leaves them sound, and adds no work. With ample blocks, and a
  -- budget and a chunk size above 0, it leaves less work if there is any sequence.
  pub step-Sound :
      (clock : ℕ → ℕ) (s : Scheduler)
      → Sound s
      → Returns (step clock s) (λ t.
        Sound t.scheduler
        × (t.scheduler.config ≡ s.config)
        × (work (queued t.scheduler) ≤ work (queued s))
        × ((ks : List ℕ)
            → Ample bs total share ks
            → queued s ≢ []
            → 0 < s.config.max_batch_tokens
            → 0 < s.config.max_prefill_chunk
            → work (queued t.scheduler) < work (queued s)))
  unfolding step
  step-Sound clock s v =
      >>=-Returns (decode_pass clock (begin s) s.active) _ _ _
        (decode_pass-Works bs total share pos clock (begin s) s.active v.active v.room)
        λ d p.
          >>=-Returns (prefill_pass s.config d.0 d.1) _ _ _
            (prefill_pass-Works bs total share pos s.config d.0 d.1 p.0.servable p.0.room)
            λ e q.
              >>=-Returns (admit_pass s.config e.0 s.waiting e.1) _ _ _
                (admit_pass-Works bs total share pos s.config e.0 s.waiting e.1 v.waiting v.early
                  q.0.room)
                λ f g.
                  let parts = All-append_inv g.0 f.1 g.1.servable in
                  let less : work (f.2 ++ f.1) + tokens f.0.results ≤ work (queued s) = rw g.2 (
                    omega (
                      arith,
                      p.0.worked,
                      q.0.worked,
                      g.1.worked,
                      work-append s.active s.waiting,
                      work-append e.1 g.0,
                      work-append (e.1 ++ g.0) f.1,
                      work-append g.0 f.1,
                    )) in
                  (
                    record {
                      active =
                          rw g.2
                            (All-append (IsServable bs total share) e.1 g.0 q.0.servable parts.0);
                      waiting = parts.1;
                      early = g.3;
                      room = g.1.room;
                    },
                    refl,
                    omega (arith, less),
                    λ ks ample some_left some_budget some_max. omega (
                      arith,
                      less,
                      step-Gains (begin s) d.0 e.0 f.0 s.active s.waiting d.1 e.1 (g.0 ++ f.1)
                          some_left (omega arith) p.0 q.0 g.1 (p.1 (omega arith))
                          (λ all some_active left. q.1 all some_active some_max left)
                          (λ some_waiting left. g.4 some_waiting some_max left) ks ample,
                    ),
                  )
