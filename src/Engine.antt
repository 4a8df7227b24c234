-- ===== src/Engine.antt =====
-- src/main.cpp: the drain loop of the main thread beside the handlers of Ingress.
-- The loop is cut into its accesses to what the handlers share: one pop, an iteration of the
-- scheduler, one update of the status table. Signals and sleeping are not modelled: the loop goes on,
-- and a run may stop anywhere.
pub mod Books
pub mod Service
mod Tests
use aether_mo_e.Common.{
  ℕ, zero, suc, ◌+◌, Bool, not, ◌&&◌, ltb, if◌then◌else◌, List, [], ◌∷◌, ◌++◌, Option, none, some,
  Result, ok, err, ◌>>=◌,
}
use aether_mo_e.PageTable
use aether_mo_e.Sequence.{Sequence}
use aether_mo_e.Scheduler.{StepResult, default_config, step, admit, Stepped}
use aether_mo_e.Scheduler.Runs.{Trace, start}
use aether_mo_e.Ingress.{
  Ingress, ingress_server, healthz, Json, upsert, begin_generate, push_request, record_request,
  status, pick,
}

-- Where the main thread is, with `drained`, or the results still to be put in the table.
pub data Phase : Type 0 where
  draining : (drained : ℕ) → Phase
  updating : List StepResult → Phase

pub record Engine : Type 0 where
  pub ingress : Ingress
  pub phase : Phase
  pub trace : Trace

abbrev pub block_size_tokens : ℕ
block_size_tokens = 16

abbrev pub num_physical_blocks : ℕ
num_physical_blocks = 4096

unfoldable pub no_requests : Ingress
unfolding ingress_server
no_requests = ingress_server [] [] 1

unfoldable pub boot : Result Engine
unfolding no_requests
boot = PageTable.create block_size_tokens num_physical_blocks >>= λ pages.
    ok (record { ingress = no_requests; phase = draining 0; trace = start default_config pages })

-- `scheduler.step()`, with what it returns and records.
unfoldable pub iterate : (ℕ → ℕ) → Engine → Result Engine
unfolding step
iterate clock e = step clock e.trace.scheduler >>= λ r. ok (record e {
  phase = updating r.results;
  trace = record {
    scheduler = r.scheduler;
    results = e.trace.results ++ r.results;
    samples = e.trace.samples ++ r.samples;
  };
})

-- The inner loop's test and body, or what comes after the loop. A pop can come back empty because a
-- push has not published its item.
unfoldable pub drain : (ℕ → ℕ) → Bool → ℕ → Engine → List Sequence → Result Engine
unfolding iterate admit
drain clock refused drained e [] = iterate clock e
drain clock refused drained e (seq ∷ seqs) =
    if ltb drained 256 && not refused
    then ok (record e {
      ingress = record e.ingress { queue = seqs };
      phase = draining (drained + 1);
      trace = record e.trace { scheduler = admit e.trace.scheduler seq };
    })
    else iterate clock e

unfoldable pub update : List StepResult → Engine → Engine
update [] e = record e { phase = draining 0 }
update (r ∷ rs) e = record e {
  ingress = record e.ingress {
    status_table = upsert r.seq_id r.phase_after 0 e.ingress.status_table;
  };
  phase = updating rs;
}

unfoldable pub main_step : (ℕ → ℕ) → Bool → Phase → Engine → Result Engine
unfolding drain update
main_step clock refused (draining drained) e = drain clock refused drained e e.ingress.queue
main_step clock refused (updating results) e = ok (update results e)

-- One step of a thread.
pub data Event : Type 0 where
  generate : (request : List ℕ) → (now : ℕ) → Event
  push : (n : ℕ) → (refused : Bool) → Event
  record_next : (n : ℕ) → Event
  probe : Event
  asks : (digits : List ℕ) → Event
  main : (refused : Bool) → Event

-- A handler that is picked goes on.
unfoldable pub push_picked : Bool → Ingress → Option (Sequence × List Sequence) → Ingress
unfolding push_request
push_picked refused i none = i
push_picked refused i (some p) = push_request refused p.0 (record i { pushing = p.1 })

unfoldable pub record_picked : Ingress → Option (ℕ × List ℕ) → Ingress
unfolding record_request
record_picked i none = i
record_picked i (some p) = record_request p.0 (record i { recording = p.1 })

module _ {J : Type 0} (json : Json J) (clock : ℕ → ℕ) where
  unfoldable pub happen : Engine → Event → Result Engine
  unfolding begin_generate push_picked record_picked healthz status pick main_step
  happen e (generate request now) =
      ok (record e { ingress = begin_generate json request now e.ingress })
  happen e (push n refused) =
      ok (record e { ingress = push_picked refused e.ingress (pick n e.ingress.pushing) })
  happen e (record_next n) =
      ok (record e { ingress = record_picked e.ingress (pick n e.ingress.recording) })
  happen e probe = ok (record e { ingress = healthz e.ingress })
  happen e (asks digits) = ok (record e { ingress = status digits e.ingress })
  happen e (main refused) = main_step clock refused e.phase e

  unfoldable pub run : Engine → List Event → Result Engine
  unfolding happen
  run e [] = ok e
  run e (v ∷ vs) = happen e v >>= λ e'. run e' vs
