-- ===== src/Engine/Service.antt =====
-- The whole of main.cpp: requests from the handlers to the end of their sequences.
use aether_mo_e.Common.{
  ℕ, ◌+◌, ◌^◌, ◌≤◌, ◌<◌, ◌≡◌, refl, ap, Bool, not, ◌&&◌, ltb, List, [], ◌∷◌, ◌++◌, length, ◌>>=◌,
  Returns, >>=-Returns, Returns-mono, arith, count, Bool-cases, inl, inr,
}
use aether_mo_e.PageTable.{blocks_of}
use aether_mo_e.PageTable
use aether_mo_e.Sequence.{Sequence}
use aether_mo_e.Scheduler.{StepResult, step, default_config}
use aether_mo_e.Scheduler.Measures.{dead, with_id, ended, with_id-append}
use aether_mo_e.Scheduler.Steps.{queued, step-Advances}
use aether_mo_e.Scheduler.Runs.{Ledger, start-Ledger, admit-Ledger, step-Ledger}
use aether_mo_e.Ingress.{Json, queue_capacity}
use aether_mo_e.Engine.{
  Engine, Phase, draining, updating, no_requests, boot, iterate, drain, update, main_step, Event,
  generate, push, record_next, probe, asks, main, happen, run,
}
use aether_mo_e.Engine.Books.{
  Books, accepts, begin_generate-Kept, push_picked-Kept, record_picked-Kept, healthz-Kept,
  status-Kept,
}

-- The scheduler's ledger and the handlers' books, about the same requests.
abbrev Serves : ℕ → Engine → Type 0
Serves bound e =
    (qs : List Sequence) × Ledger e.trace qs × Books e.ingress qs × (e.ingress.next_seq_id ≤ bound)

module _ (clock : ℕ → ℕ) where
  iterate-Serves :
      (bound : ℕ) (e : Engine) → Serves bound e → Returns (iterate clock e) (Serves bound)
  unfolding iterate
  iterate-Serves bound e (qs, l, b, under) =
      >>=-Returns (step clock e.trace.scheduler) _ _ _
        (step-Advances clock e.trace.scheduler l.live l.exclusive)
        λ r a. (qs, step-Ledger e.trace qs r a.0 a.1 l, b, under)

  drain-Serves :
      (refused : Bool) (drained bound : ℕ) (e : Engine) (queue : List Sequence)
      → queue ≡ e.ingress.queue
      → Serves bound e
      → Returns (drain clock refused drained e queue) (Serves bound)
  unfolding drain
  drain-Serves refused drained bound e [] h s = iterate-Serves bound e s
  drain-Serves refused drained bound e (q ∷ seqs) h (qs, l, b, under) =
      elim (Bool-cases (ltb drained 256 && not refused)) [
        | inl popped ↦ rw (popped) (
          qs ++ (q ∷ []),
          admit-Ledger e.trace qs q (omega (arith, b.live, ap dead h)) l,
          record {
            live = omega (arith, b.live, ap dead h);
            distinct =
                λ k. omega (arith, b.distinct k, ap (with_id k) h, with_id-append k qs (q ∷ []));
            fresh =
                λ k g. omega (arith, b.fresh k g, ap (with_id k) h, with_id-append k qs (q ∷ []));
            answered =
                λ k. omega (arith, b.answered k, ap (with_id k) h, with_id-append k qs (q ∷ []));
            room = omega (arith, b.room, ap length h);
          },
          under,
        )
        | inr left ↦ rw (left) (iterate-Serves bound e (qs, l, b, under))
      ]

  update-Serves :
      (results : List StepResult) (bound : ℕ) (e : Engine)
      → Serves bound e
      → Serves bound (update results e)
  unfolding update
  update-Serves [] bound e s = s
  update-Serves (r ∷ rs) bound e (qs, l, b, under) = (
    qs,
    l,
    record {
      live = b.live;
      distinct = b.distinct;
      fresh = b.fresh;
      answered = b.answered;
      room = b.room;
    },
    under,
  )

  main_step-Serves :
      (refused : Bool) (bound : ℕ) (e : Engine) (at : Phase)
      → Serves bound e
      → Returns (main_step clock refused at e) (Serves bound)
  unfolding main_step
  main_step-Serves refused bound e (draining drained) s =
      drain-Serves refused drained bound e e.ingress.queue refl s
  main_step-Serves refused bound e (updating results) s = update-Serves results bound e s

module _ {J : Type 0} (json : Json J) (clock : ℕ → ℕ) where
  happen-Serves :
      (e : Engine) (v : Event) (bound : ℕ)
      → bound + 1 < 2 ^ 64
      → Serves bound e
      → Returns (happen json clock e v) (Serves (bound + 1))
  unfolding happen
  happen-Serves e (generate request now) bound h (qs, l, b, under) =
      let (kept, next) = begin_generate-Kept json request now e.ingress qs (omega arith) b in
      (qs, l, kept, omega arith)
  happen-Serves e (push n refused) bound h (qs, l, b, under) =
      let (kept, next) = push_picked-Kept refused e.ingress qs n b in (qs, l, kept, omega arith)
  happen-Serves e (record_next n) bound h (qs, l, b, under) =
      let (kept, next) = record_picked-Kept e.ingress qs n b in (qs, l, kept, omega arith)
  happen-Serves e probe bound h (qs, l, b, under) =
      let (kept, next) = healthz-Kept e.ingress qs b in (qs, l, kept, omega arith)
  happen-Serves e (asks digits) bound h (qs, l, b, under) =
      let (kept, next) = status-Kept digits e.ingress qs b in (qs, l, kept, omega arith)
  happen-Serves e (main refused) bound h s =
      Returns-mono (main_step clock refused e.phase e) _ _
        (main_step-Serves clock refused bound e e.phase s)
        λ e' (qs, l, b, under). (qs, l, b, omega arith)

  run-Serves :
      (e : Engine) (es : List Event) (bound : ℕ)
      → bound + length es < 2 ^ 64
      → Serves bound e
      → Returns (run json clock e es) (Serves (bound + length es))
  unfolding run
  run-Serves e [] bound h (qs, l, b, under) = (qs, l, b, omega arith)
  run-Serves e (v ∷ vs) bound h s =
      >>=-Returns (happen json clock e v) _ _ _ (happen-Serves e v bound (omega arith) s) λ e' s'.
        Returns-mono (run json clock e' vs) _ _ (run-Serves e' vs (bound + 1) (omega arith) s')
          λ e'' (qs, l, b, under). (qs, l, b, omega arith)

boot-Serves : Returns boot (Serves 1)
unfolding boot no_requests PageTable.create
boot-Serves = (
  [],
  start-Ledger default_config 16 4096 (omega arith) refl,
  record {
    live = refl;
    distinct = λ k. omega arith;
    fresh = λ k g. refl;
    answered = λ k. refl;
    room = omega arith;
  },
  omega arith,
)

-- Whatever the clients ask and however the threads take turns, in fewer than 2 ^ 64 - 1 steps: the
-- main thread does not throw; a request that was accepted or is about to be is in exactly one place,
-- the ring, a queue of the scheduler, or the reports of finished sequences, and no id is accepted
-- twice; a sequence that the scheduler does not have holds no blocks; and the ring never holds more
-- than its capacity.
pub run_serves :
    {J : Type 0} (json : Json J) (clock : ℕ → ℕ) (es : List Event)
    → length es + 1 < 2 ^ 64
    → Returns (boot >>= λ e. run json clock e es) (λ e.
      ((k : ℕ)
        → (accepts k e.ingress.responses + count k e.ingress.recording
            ≡ with_id k e.ingress.queue
              + with_id k (queued e.trace.scheduler)
              + ended k e.trace.results)
          × (accepts k e.ingress.responses + count k e.ingress.recording ≤ 1)
          × (with_id k (queued e.trace.scheduler) ≡ 0
              → blocks_of e.trace.scheduler.page_table k ≡ []))
      × (length e.ingress.queue ≤ queue_capacity))
run_serves json clock es h = >>=-Returns boot _ _ _ boot-Serves λ e s.
    Returns-mono (run json clock e es) _ _ (run-Serves json clock e es 1 (omega arith) s)
      λ u (qs, l, b, under). (
        λ k. (
          omega (arith, b.answered k, l.accounted k),
          omega (arith, b.answered k, b.distinct k),
          l.idle (λ j. omega (arith, b.distinct j)) k,
        ),
        b.room,
      )
