-- ===== src/Scheduler/Draining.antt =====
-- The three loops of scheduler.hpp as work done.
use aether_mo_e.Common.{
  ap, sym, ◌∙◌, ℕ, ◌<◌, ◌≡◌, ◌≢◌, refl, List, [], ◌∷◌, ◌++◌, arith, All, Returns, >>=-Returns,
  Returns-mono, ◌==◌, Bool-cases, inl, inr, ◌⊎◌, append-nil, append_assoc,
}
use aether_mo_e.PageTable.Shares.{Room}
use aether_mo_e.Sequence.{Sequence, prefill}
use aether_mo_e.Scheduler.{
  SchedulerConfig, Iteration, visit, decode_pass, prefill_visit, prefill_pass, prefill_one,
  admit_pass,
}
use aether_mo_e.Scheduler.Work.{InPrefill, IsServable, Works, Gains, stop-Works, seq-Works}
use aether_mo_e.Scheduler.Serving.{visit-Works}
use aether_mo_e.Scheduler.Chunking.{prefill_one-Works, prefill_visit-Works}

module _ (bs total : ℕ) (share : ℕ → ℕ) (pos : 0 < bs) where
  -- The loop left all as it was, which was in PREFILL.
  abbrev pub Idle : Iteration → List Sequence → Iteration → List Sequence → Type 0
  Idle it qs it' qs' = All InPrefill qs × (it' ≡ it) × (qs' ≡ qs)

  joined :
      (it it₁ it₂ : Iteration) (q : Sequence) (qs xs ys : List Sequence)
      → Works bs total share it (q ∷ []) it₁ xs
      → Works bs total share it₁ qs it₂ ys
      → Gains bs total share it it₁ ⊎ ((q.phase ≡ prefill) × (it₁ ≡ it) × (xs ≡ q ∷ []))
      → (it₁.budget ≢ 0 → Gains bs total share it₁ it₂ ⊎ Idle it₁ qs it₂ ys)
      → it.budget ≢ 0
      → Gains bs total share it it₂ ⊎ Idle it (q ∷ qs) it₂ (xs ++ ys)
  joined it it₁ it₂ q qs xs ys w u (inl gain) next left =
      inl (λ ks ample. omega (arith, gain ks ample, u.more))
  joined it it₁ it₂ q qs xs ys w u (inr (early, same, stays)) next left =
      elim (next (λ e. left (ap (λ (x : Iteration). x.budget) (sym same) ∙ e))) [
        | inl gain ↦ inl (λ ks ample. omega (arith, gain ks ample, w.more))
        | inr rest ↦ inr ((early, rest.0), rest.1 ∙ same, rw (stays, rest.2) refl)
      ]

  -- The first loop gains on a sequence in DECODE; it leaves sequences in PREFILL as they are.
  pub decode_pass-Works :
      (clock : ℕ → ℕ) (it : Iteration) (qs : List Sequence)
      → All (IsServable bs total share) qs
      → Room bs total share it.page_table
      → Returns (decode_pass clock it qs) (λ r.
        Works bs total share it qs r.0 r.1
        × (it.budget ≢ 0 → Gains bs total share it r.0 ⊎ Idle it qs r.0 r.1))
  unfolding decode_pass
  decode_pass-Works clock it [] v r =
      (stop-Works bs total share it [] v r, λ left. inr (tt, refl, refl))
  decode_pass-Works clock it (q ∷ qs) v r = elim (Bool-cases (it.budget == 0)) [
    | inl spent ↦
        rw spent (stop-Works bs total share it (q ∷ qs) v r, λ left. absurd (ground arith))
    | inr left ↦ rw left (
        >>=-Returns (visit clock it q q.phase) _ _ _
          (visit-Works bs total share pos clock it q v.0 (ground arith) r q.phase refl)
          λ s w.
            >>=-Returns (decode_pass clock s.0 qs) _ _ _
              (decode_pass-Works clock s.0 qs v.1 w.0.room)
              λ t u. (
                seq-Works bs total share it s.0 t.0 (q ∷ []) qs s.1 t.1 w.0 u.0,
                λ left'. joined it s.0 t.0 q qs s.1 t.1 w.0 u.0 w.1 u.1 left',
              ))
  ]

  pub prefill_pass-Works :
      (config : SchedulerConfig) (it : Iteration) (qs : List Sequence)
      → All (IsServable bs total share) qs
      → Room bs total share it.page_table
      → Returns (prefill_pass config it qs) (λ r.
        Works bs total share it qs r.0 r.1
        × (All InPrefill qs
            → qs ≢ []
            → 0 < config.max_prefill_chunk
            → it.budget ≢ 0
            → Gains bs total share it r.0))
  unfolding prefill_pass
  prefill_pass-Works config it [] v r =
      (stop-Works bs total share it [] v r, λ all some_left. absurd (some_left refl))
  prefill_pass-Works config it (q ∷ qs) v r = elim (Bool-cases (it.budget == 0)) [
    | inl spent ↦ rw spent (
      stop-Works bs total share it (q ∷ qs) v r,
      λ all some_left some_max left. absurd (ground arith),
    )
    | inr left ↦ rw left (
        >>=-Returns (prefill_visit config it q q.phase) _ _ _
          (prefill_visit-Works bs total share pos config it q v.0 r q.phase refl)
          λ s w.
            >>=-Returns (prefill_pass config s.0 qs) _ _ _
              (prefill_pass-Works config s.0 qs v.1 w.0.room)
              λ t u. (
                seq-Works bs total share it s.0 t.0 (q ∷ []) qs (s.1 ∷ []) t.1 w.0 u.0,
                λ all some_left some_max left' ks ample.
                    omega (arith, w.1 all.0 some_max left' ks ample, u.0.more),
              ))
  ]

  -- The third loop gains on the front of the waiting queue; what waits afterwards is still in
  -- PREFILL.
  pub admit_pass-Works :
      (config : SchedulerConfig) (it : Iteration) (qs active : List Sequence)
      → All (IsServable bs total share) qs
      → All InPrefill qs
      → Room bs total share it.page_table
      → Returns (admit_pass config it qs active) (λ r.
        (gone : List Sequence) × Works bs total share it qs r.0 (gone ++ r.1)
        × (r.2 ≡ active ++ gone)
        × All InPrefill r.1
        × (qs ≢ [] → 0 < config.max_prefill_chunk → it.budget ≢ 0 → Gains bs total share it r.0))
  unfolding admit_pass
  admit_pass-Works config it [] active v early r = (
    [],
    stop-Works bs total share it [] v r,
    sym (append-nil active),
    tt,
    λ some_left. absurd (some_left refl),
  )
  admit_pass-Works config it (q ∷ qs) active v early r = elim (Bool-cases (it.budget == 0)) [
    | inl spent ↦ rw spent (
      [],
      stop-Works bs total share it (q ∷ qs) v r,
      sym (append-nil active),
      early,
      λ some_left some_max left. absurd (ground arith),
    )
    | inr left ↦ rw left (
        >>=-Returns (prefill_one config it q) _ _ _
          (prefill_one-Works bs total share pos config it q v.0 r)
          λ s w. elim (Bool-cases (s.2 == 0)) [
            | inl stuck ↦ rw stuck (
              [],
              seq-Works bs total share it s.0 s.0 (q ∷ []) qs (s.1 ∷ []) qs w.0
                  (stop-Works bs total share s.0 qs v.1 w.0.room),
              sym (append-nil active),
              (w.2 (ground arith) early.0, early.1),
              λ some_left some_max left' ks ample.
                  omega (arith, w.1 early.0 some_max left' ks ample),
            )
            | inr moved ↦ rw moved (
                Returns-mono (admit_pass config s.0 qs (active ++ s.1 ∷ [])) _ _
                  (admit_pass-Works config s.0 qs (active ++ s.1 ∷ []) v.1 early.1 w.0.room)
                  λ t u. (
                    s.1 ∷ u.0,
                    seq-Works bs total share it s.0 t.0 (q ∷ []) qs (s.1 ∷ []) (u.0 ++ t.1) w.0 u.1,
                    u.2 ∙ append_assoc active (s.1 ∷ []) u.0,
                    u.3,
                    λ some_left some_max left' ks ample.
                        omega (arith, w.1 early.0 some_max left' ks ample, u.1.more),
                  ))
          ])
  ]
