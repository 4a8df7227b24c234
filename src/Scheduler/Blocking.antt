-- ===== src/Scheduler/Blocking.antt =====
-- A request with an empty prompt at the front of `waiting_`: do_prefill_chunk of scheduler.hpp
-- reports 0 tokens for it, which the admission loop takes for "no budget or no capacity".
use aether_mo_e.Common.{
  Returns-both, ◌≤◌, ◌^◌, ap, ℕ, ◌≡◌, refl, true, false, List, [], ◌∷◌, ◌++◌, arith, Returns,
  >>=-Returns, ok, ◌==◌, Bool-cases, inl, inr, append_assoc, append-nil,
}
use aether_mo_e.PageTable.{Allocator, create as create_pages}
use aether_mo_e.PageTable.Exclusive.{IsExclusive}
use aether_mo_e.Sequence.{Sequence, create, decode, prefill_complete}
use aether_mo_e.Scheduler.{
  SchedulerConfig, Scheduler, Iteration, begin, admit, do_prefill_chunk, prefill_one, admit_pass,
  decode_pass, prefill_pass, step,
}
use aether_mo_e.Scheduler.Measures.{dead, is_finished, dead-append}
use aether_mo_e.Scheduler.Chunks.{transition_decode, live-running}
use aether_mo_e.Scheduler.Visits.{Advances}
use aether_mo_e.Scheduler.Passes.{decode_pass-Advances, prefill_pass-Advances}
use aether_mo_e.Scheduler.Steps.{queued, step-Advances}
use aether_mo_e.Scheduler.Runs.{
  start, start-Ledger, Event, admits, steps, Trace, run, admitted, Ledger, admit-Ledger,
  step-Ledger,
}

-- A queue that starts with a fully prefilled sequence named `k`, and goes on with `rest`.
abbrev pub IsBlocked : ℕ → List Sequence → List Sequence → Type 0
IsBlocked k rest waiting =
    (q : Sequence) × (waiting ≡ q ∷ rest) × (prefill_complete q ≡ true) × (q.id ≡ k)

admit_pass-IsBlocked :
    (config : SchedulerConfig) (it : Iteration) (q : Sequence) (rest active : List Sequence)
    → is_finished q.phase ≡ false
    → prefill_complete q ≡ true
    → Returns (admit_pass config it (q ∷ rest) active) (λ r. IsBlocked q.id rest r.1)
unfolding admit_pass prefill_one do_prefill_chunk
admit_pass-IsBlocked config it q rest active running done = elim (Bool-cases (it.budget == 0)) [
  | inl spent ↦ rw spent (q, refl, done, refl)
  | inr left ↦
      rw (left, done, transition_decode q running) (record q { phase = decode }, refl, done, refl)
]

step-IsBlocked :
    (clock : ℕ → ℕ) (s : Scheduler) (k : ℕ) (rest : List Sequence)
    → dead (queued s) ≡ 0
    → IsExclusive s.page_table
    → IsBlocked k rest s.waiting
    → Returns (step clock s) (λ t. IsBlocked k rest t.scheduler.waiting)
unfolding step
step-IsBlocked clock s k rest live v (q, e, done, same) =
    let parts = dead-append s.active s.waiting in
    >>=-Returns (decode_pass clock (begin s) s.active) _ (λ r. Advances (begin s) s.active r.0 r.1)
      _ (decode_pass-Advances clock (begin s) s.active (omega (arith, parts)) v)
      λ d p.
        >>=-Returns (prefill_pass s.config d.0 d.1) _ (λ r. Advances d.0 d.1 r.0 r.1) _
          (prefill_pass-Advances s.config d.0 d.1 p.0.live p.1.exclusive)
          λ f g.
            >>=-Returns (admit_pass s.config f.0 s.waiting f.1) _ (λ r. IsBlocked k rest r.1) _
              (rw (e, ← same)
                (admit_pass-IsBlocked s.config f.0 q rest f.1 (live-running q (front live)) done))
              λ h b. b
  where
    front : dead (queued s) ≡ 0 → dead (q ∷ []) ≡ 0
    front h = omega (arith, dead-append s.active s.waiting, ap dead e)

-- An iteration and an admission keep the front where it is.
run-IsBlocked :
    (clock : ℕ → ℕ) (t : Trace) (qs : List Sequence) (es : List Event) (k : ℕ)
    (rest : List Sequence)
    → dead (admitted es) ≡ 0
    → Ledger t qs
    → IsBlocked k rest t.scheduler.waiting
    → Returns (run clock t es) (λ u. IsBlocked k (rest ++ admitted es) u.scheduler.waiting)
unfolding run admit
run-IsBlocked clock t qs [] k rest live l b = rw (append-nil rest) b
run-IsBlocked clock t qs (admits q ∷ es) k rest live l (front, e, done, same) =
    rw (← append_assoc rest (q ∷ []) (admitted es)) (
      run-IsBlocked clock _ (qs ++ q ∷ []) es k (rest ++ q ∷ []) (omega arith)
        (admit-Ledger t qs q (omega arith) l) (front, rw e, done, same))
run-IsBlocked clock t qs (steps ∷ es) k rest live l b =
    >>=-Returns (step clock t.scheduler) _ _ _
      (Returns-both (step clock t.scheduler) _ (λ r. IsBlocked k rest r.scheduler.waiting)
        (step-Advances clock t.scheduler l.live l.exclusive)
        (step-IsBlocked clock t.scheduler k rest l.live l.exclusive b))
      λ r a. run-IsBlocked clock _ qs es k rest live (step-Ledger t qs r a.0.0 a.0.1 l) a.1

-- Once a request with an empty prompt is admitted to an empty scheduler, it stays at the front of
-- the waiting queue, and all requests that are admitted later wait behind it, whatever iterations
-- are run.
pub empty_prompt_blocks :
    (clock : ℕ → ℕ) (config : SchedulerConfig) (bs n seq_id max_new now : ℕ) {pages : Allocator}
    (es : List Event)
    → n ≤ 2 ^ 31
    → create_pages bs n ≡ ok pages
    → dead (admitted es) ≡ 0
    → Returns
        (run clock (start config pages) (admits (create seq_id [] max_new now) ∷ es))
        (λ u. IsBlocked seq_id (admitted es) u.scheduler.waiting)
unfolding run admit create
empty_prompt_blocks clock config bs n seq_id max_new now {pages} es h e live =
    let q : Sequence = create seq_id [] max_new now in
    run-IsBlocked clock _ (q ∷ []) es seq_id [] live
      (admit-Ledger (start config pages) [] q (ground arith) (start-Ledger config bs n h e))
      (q, refl, refl, refl)
