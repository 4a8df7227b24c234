-- ===== src/Scheduler/Soundness.antt =====
-- Requests to the scheduler of scheduler.hpp, and that its queues are sound in any history of them.
use aether_mo_e.Common.{
  All-append, ap, ◌∙◌, ℕ, zero, suc, ◌+◌, ◌^◌, ◌≤◌, ◌<◌, ◌≡◌, ◌≢◌, refl, List, [], ◌∷◌, arith, All,
  replicate, Returns, >>=-Returns, Returns-mono, length, ◌==◌, if◌then◌else◌, inl, inr, ◌⊎◌,
}
use aether_mo_e.PageTable.Shares.{Ample}
use aether_mo_e.Sequence as Seq
use aether_mo_e.Sequence.{Sequence, prefill}
use aether_mo_e.Scheduler.{Scheduler, admit, step}
use aether_mo_e.Scheduler.Measures.{dead, with_id, quota}
use aether_mo_e.Scheduler.Steps.{queued}
use aether_mo_e.Scheduler.Runs.{Event, admits, steps, Trace, run, admitted}
use aether_mo_e.Scheduler.Work.{work, demand, InPrefill, IsServable}
use aether_mo_e.Scheduler.Rounds.{Sound, step-Sound}

-- A request as its constructor leaves it, with a prompt, and not so long that a sum wraps.
pub record IsRequest (bs : ℕ) (q : Sequence) : Type 0 where
  pub fresh : q ≡ Seq.create q.id q.prompt_tokens q.max_new_tokens q.admitted_at
  pub prompt : 0 < length q.prompt_tokens
  pub small : length q.prompt_tokens + quota q + bs ≤ 2 ^ 64

-- The blocks that the sequences with the id `k` fill when they have all their tokens.
abbrev pub demanded : ℕ → List Sequence → ℕ → ℕ
demanded bs [] k = 0
demanded bs (q ∷ qs) k = (if q.id == k then demand bs q else 0) + demanded bs qs k

demanded-eq_zero : (bs : ℕ) (qs : List Sequence) (k : ℕ) → with_id k qs ≡ 0 → demanded bs qs k ≡ 0
demanded-eq_zero bs [] k h = refl
demanded-eq_zero bs (q ∷ qs) k h = ground (arith, demanded-eq_zero bs qs k)

request_parts :
    (bs : ℕ) (q : Sequence)
    → IsRequest bs q
    → (q.phase ≡ prefill) × (q.prefill_cursor ≡ 0) × (q.generated_tokens ≡ [])
unfolding Seq.create
request_parts bs q r = (
  ap (λ (x : Sequence). x.phase) r.fresh,
  ap (λ (x : Sequence). x.prefill_cursor) r.fresh,
  ap (λ (x : Sequence). x.generated_tokens) r.fresh,
)

nil_or_not : (qs : List Sequence) → (qs ≡ []) ⊎ (qs ≢ [])
nil_or_not [] = inl refl
nil_or_not (q ∷ qs) = inr (λ e. cc)

module _ (bs total : ℕ) (share : ℕ → ℕ) where
  request-IsServable :
      (q : Sequence)
      → IsRequest bs q
      → demand bs q ≡ share q.id
      → IsServable bs total share q × InPrefill q
  request-IsServable q r e =
      let (new, start_of, nothing) = request_parts bs q r in
      (
        record {
          running = rw new refl;
          owes = rw nothing (omega arith);
          cursor = omega (arith, start_of);
          early = λ h. omega (arith, start_of, r.prompt);
          small = r.small;
          enough = e;
        },
        new,
      )

  -- Requests with distinct ids, whose shares are what they demand.
  pub requests-IsServable :
      (qs : List Sequence)
      → ((k : ℕ) → with_id k qs ≤ 1)
      → ((k : ℕ) → 0 < with_id k qs → share k ≡ demanded bs qs k)
      → All (IsRequest bs) qs
      → All (λ q. IsServable bs total share q × InPrefill q) qs
  requests-IsServable [] one same rs = tt
  requests-IsServable (q ∷ qs) one same rs = (
    request-IsServable q rs.0 (ground (arith, one q.id, same q.id, demanded-eq_zero bs qs q.id)),
    requests-IsServable qs (λ k. omega (arith, one k)) (λ k h. ground (arith, one k, same k)) rs.1,
  )

pub dead-requests : (bs : ℕ) (qs : List Sequence) → All (IsRequest bs) qs → dead qs ≡ 0
dead-requests bs [] rs = refl
dead-requests bs (q ∷ qs) rs =
    let (new, start_of, nothing) = request_parts bs q rs.0 in
    ground (arith, new, nothing, dead-requests bs qs rs.1)

-- Histories keep the scheduler sound.
module _ (bs total : ℕ) (share : ℕ → ℕ) (pos : 0 < bs) (clock : ℕ → ℕ) where
  admit-Sound :
      (s : Scheduler) (q : Sequence)
      → IsServable bs total share q
      → InPrefill q
      → Sound bs total share pos s
      → Sound bs total share pos (admit s q)
  unfolding admit
  admit-Sound s q v new w = record {
    active = w.active;
    waiting = All-append (IsServable bs total share) s.waiting (q ∷ []) w.waiting (v, tt);
    early = All-append InPrefill s.waiting (q ∷ []) w.early (new, tt);
    room = w.room;
  }

  pub run-Sound :
      (t : Trace) (es : List Event)
      → All (λ q. IsServable bs total share q × InPrefill q) (admitted es)
      → Sound bs total share pos t.scheduler
      → Returns
          (run clock t es)
          (λ u. Sound bs total share pos u.scheduler × (u.scheduler.config ≡ t.scheduler.config))
  unfolding run admit
  run-Sound t [] v w = (w, refl)
  run-Sound t (admits q ∷ es) v w =
      run-Sound (record t { scheduler = admit t.scheduler q }) es v.1
        (admit-Sound t.scheduler q v.0.0 v.0.1 w)
  run-Sound t (steps ∷ es) v w =
      >>=-Returns (step clock t.scheduler) _ _ _ (step-Sound bs total share pos clock t.scheduler w)
        λ r x. Returns-mono (run clock _ es) _ _ (run-Sound _ es v x.0) λ u y. (y.0, y.1 ∙ x.1)

  servable-work : (qs : List Sequence) → All (IsServable bs total share) qs → work qs ≡ 0 → qs ≡ []
  servable-work [] v h = refl
  servable-work (q ∷ qs) v h = absurd (omega (arith, v.0.owes))

  -- As many iterations as there is work leave none.
  module _ (ks : List ℕ) (ample : Ample bs total share ks) where
    pub rounds-drain :
        (m : ℕ) (t : Trace)
        → 0 < t.scheduler.config.max_batch_tokens
        → 0 < t.scheduler.config.max_prefill_chunk
        → Sound bs total share pos t.scheduler
        → work (queued t.scheduler) ≤ m
        → Returns
            (run clock t (replicate m steps))
            (λ v. (queued v.scheduler ≡ []) × Sound bs total share pos v.scheduler)
    unfolding run
    rounds-drain zero t some_budget some_max w h = (
      servable-work (queued t.scheduler)
          (All-append (IsServable bs total share) t.scheduler.active t.scheduler.waiting w.active
            w.waiting)
          (omega arith),
      w,
    )
    rounds-drain (suc m) t some_budget some_max w h =
        >>=-Returns (step clock t.scheduler) _ _ _
          (step-Sound bs total share pos clock t.scheduler w)
          λ r x.
            rounds-drain m _ (rw x.1 some_budget) (rw x.1 some_max) x.0
              (elim (nil_or_not (queued t.scheduler)) [
                | inl empty ↦ omega (arith, x.2, ap work empty)
                | inr some_left ↦ omega (arith, x.3 ks ample some_left some_budget some_max)
              ])
