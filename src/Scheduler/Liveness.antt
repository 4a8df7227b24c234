-- ===== src/Scheduler/Liveness.antt =====
-- How the scheduler of scheduler.hpp finishes all that it holds.
use native.Mathlib.Decide.{ℕ_discrete}
use aether_mo_e.Common.{
  All-append, ap, subst, ◌∙◌, ℕ, zero, suc, ◌^◌, ◌≤◌, ◌<◌, ◌≡◌, refl, List, [], ◌∷◌, ◌++◌, map,
  arith, ok, All, replicate, Returns, Returns-mono, Returns-both, Returns-eq_ok, length, count,
  ◌==◌, if◌then◌else◌, append-nil,
}
use aether_mo_e.PageTable.{create, Allocator, blocks_of, free_block_count}
use aether_mo_e.PageTable.Shares.{Ample, sum_over, create-Room}
use aether_mo_e.Sequence.{Sequence}
use aether_mo_e.Scheduler.{Scheduler, SchedulerConfig}
use aether_mo_e.Scheduler.Measures.{with_id, with_id-append, owed, ended, decodes}
use aether_mo_e.Scheduler.Steps.{queued}
use aether_mo_e.Scheduler.Runs.{
  Event, steps, Trace, start, run, admitted, Ledger, run-Ledger, start-Ledger, Ledger-leak_free,
}
use aether_mo_e.Scheduler.Work.{work, demand, reserved, IsServable}
use aether_mo_e.Scheduler.Rounds.{Sound}
use aether_mo_e.Scheduler.Soundness.{
  IsRequest, demanded, requests-IsServable, run-Sound, rounds-drain, dead-requests,
}

-- The ids of the sequences of a list.
abbrev ids : List Sequence → List ℕ
ids qs = map (λ (q : Sequence). q.id) qs

count-ids : (k : ℕ) (qs : List Sequence) → count k (ids qs) ≡ with_id k qs
count-ids k [] = refl
count-ids k (q ∷ qs) = ground (arith, count-ids k qs)

-- The shares of the sequences that are queued; the others have none.
module _ (bs total : ℕ) (share : ℕ → ℕ) (pos : 0 < bs) (queue : List Sequence) where
  abbrev share_of : ℕ → ℕ
  share_of k = if with_id k queue == 0 then 0 else share k

  reshared :
      (qs : List Sequence)
      → ((k : ℕ) → with_id k qs ≤ with_id k queue)
      → All (IsServable bs total share) qs
      → All (IsServable bs total share_of) qs × (sum_over share_of (ids qs) ≡ reserved bs qs)
  reshared [] h v = (tt, refl)
  reshared (q ∷ qs) h v =
      let rest = reshared qs (λ k. omega (arith, h k)) v.1 in
      let same : demand bs q ≡ share_of q.id = ground (arith, h q.id, v.0.enough) in
      (
        (
          record {
            running = v.0.running;
            owes = v.0.owes;
            cursor = v.0.cursor;
            early = v.0.early;
            small = v.0.small;
            enough = same;
          },
          rest.0,
        ),
        omega (arith, same, rest.1),
      )

  queue-Ample :
      All (IsServable bs total share) queue
      → reserved bs queue ≤ total
      → Ample bs total share_of (ids queue)
  queue-Ample v h = record {
    fits = omega (arith, (reshared queue (λ k. omega arith) v).1);
    none_else = λ k e. ground (arith, count-ids k queue);
  }

  -- A scheduler in which only queued sequences have blocks.
  queue-Sound :
      (s : Scheduler)
      → queued s ≡ queue
      → ((k : ℕ) → with_id k queue ≡ 0 → blocks_of s.page_table k ≡ [])
      → Sound bs total share pos s
      → Sound bs total share_of pos s
  queue-Sound s e idle w =
      let parts = λ (k : ℕ). with_id-append k s.active s.waiting in
      record {
        active = (reshared s.active (λ k. omega (arith, parts k, ap (with_id k) e)) w.active).0;
        waiting = (reshared s.waiting (λ k. omega (arith, parts k, ap (with_id k) e)) w.waiting).0;
        early = w.early;
        room = record {
          exclusive = w.room.exclusive;
          blocks = w.room.blocks;
          pool = w.room.pool;
          bounded = λ k. elim (ℕ_discrete (with_id k queue) 0) [
            | yes gone ↦ omega (arith, ap length (idle k gone))
            | no here ↦ ground (arith, w.room.bounded k)
          ];
        };
      }

create-pos : (bs n : ℕ) {a : Allocator} → create bs n ≡ ok a → 0 < bs
unfolding create
create-pos bs n e = ground arith

admitted-replicate : (m : ℕ) → admitted (replicate m steps) ≡ []
admitted-replicate zero = refl
admitted-replicate (suc m) = admitted-replicate m

module _ (clock : ℕ → ℕ) (config : SchedulerConfig) (bs n : ℕ) {pages : Allocator} (es : List Event)
    (h : n ≤ 2 ^ 31) (new : create bs n ≡ ok pages) (requests : All (IsRequest bs) (admitted es))
    (one : (k : ℕ) → with_id k (admitted es) ≤ 1) where
  abbrev State : Trace → Type 0
  State u =
      Ledger u (admitted es)
      × Sound bs n (demanded bs (admitted es)) (create-pos bs n new) u.scheduler
      × (u.scheduler.config ≡ config)

  history-State : Returns (run clock (start config pages) es) State
  history-State =
      let share : ℕ → ℕ = demanded bs (admitted es) in
      Returns-mono (run clock (start config pages) es) _ _
        (Returns-both (run clock (start config pages) es) _ _
          (run-Ledger clock (start config pages) [] es (dead-requests bs (admitted es) requests)
            (start-Ledger config bs n h new))
          (run-Sound bs n share (create-pos bs n new) clock (start config pages) es
            (requests-IsServable bs n share (admitted es) one (λ k some. refl) requests)
            (record {
              active = tt;
              waiting = tt;
              early = tt;
              room = create-Room bs n share (omega arith) new;
            })))
        λ u st. (st.0, st.1.0, st.1.1)

  drains :
      {u : Trace}
      → State u
      → 0 < config.max_batch_tokens
      → 0 < config.max_prefill_chunk
      → reserved bs (queued u.scheduler) ≤ n
      → (m : ℕ) → work (queued u.scheduler) ≤ m
      → Returns (run clock u (replicate m steps)) (λ v.
        (queued v.scheduler ≡ [])
        × (free_block_count v.scheduler.page_table ≡ n)
        × ((k : ℕ)
            → (ended k v.results ≡ with_id k (admitted es))
              × (decodes k v.results ≡ owed k (admitted es))))
  drains {u} st some_budget some_max fits m enough =
      let share : ℕ → ℕ = demanded bs (admitted es) in
      let queue : List Sequence = queued u.scheduler in
      let pos = create-pos bs n new in
      let all =
        All-append (IsServable bs n share) u.scheduler.active u.scheduler.waiting st.1.active
          st.1.waiting in
      Returns-mono (run clock u (replicate m steps)) _ _
        (Returns-both (run clock u (replicate m steps)) _ _
          (run-Ledger clock u (admitted es) (replicate m steps) (rw (admitted-replicate m) refl)
            st.0)
          (rounds-drain bs n (share_of bs n share pos queue) pos clock (ids queue)
            (queue-Ample bs n share pos queue all fits) m u (rw st.2 some_budget) (rw st.2 some_max)
            (queue-Sound bs n share pos queue u.scheduler refl (st.0.idle one) st.1) enough))
        λ v x.
          let nothing_new : admitted es ++ admitted (replicate m steps) ≡ admitted es =
            rw (admitted-replicate m) (append-nil (admitted es)) in
          let l : Ledger v (admitted es) = subst (Ledger v) nothing_new x.0 in
          (
            x.1.0,
            Ledger-leak_free v (admitted es) l one x.1.0 ∙ x.1.1.room.pool,
            λ k. (
              omega (arith, l.accounted k, ap (with_id k) x.1.0),
              omega (arith, l.paid k, ap (owed k) x.1.0),
            ),
          )

-- Let any history of newly made requests with distinct ids, each with a prompt and none so long that a
-- sum wraps, have run on a new allocator whose block ids fit an `int`, with a token budget and a chunk
-- size above 0, and let the blocks that the sequences still queued fill in the end be no more than the
-- pool has. Then as many further iterations as these have prompt tokens to process and tokens to
-- generate do not throw and leave both queues empty. By then each request of the history was reported
-- as finished exactly once, the decode steps of each are as many as the tokens it was owed, and all
-- blocks are free.
pub run_drains :
    (clock : ℕ → ℕ) (config : SchedulerConfig) (bs n m : ℕ) {pages : Allocator} (es : List Event)
    {u : Trace}
    → n ≤ 2 ^ 31
    → create bs n ≡ ok pages
    → 0 < config.max_batch_tokens
    → 0 < config.max_prefill_chunk
    → All (IsRequest bs) (admitted es)
    → ((k : ℕ) → with_id k (admitted es) ≤ 1)
    → run clock (start config pages) es ≡ ok u
    → reserved bs (queued u.scheduler) ≤ n
    → work (queued u.scheduler) ≤ m
    → Returns (run clock u (replicate m steps)) (λ v.
      (queued v.scheduler ≡ [])
      × (free_block_count v.scheduler.page_table ≡ n)
      × ((k : ℕ)
          → (ended k v.results ≡ with_id k (admitted es))
            × (decodes k v.results ≡ owed k (admitted es))))
run_drains clock config bs n m {pages} es {u} h new some_budget some_max requests one done fits
      enough =
    drains clock config bs n es h new requests one
      (Returns-eq_ok (run clock (start config pages) es) _
        (history-State clock config bs n es h new requests one) done)
      some_budget some_max fits m enough
