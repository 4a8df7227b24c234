-- ===== src/Telemetry/Lifecycle.antt =====
-- The flusher's thread: start, stop and run of TelemetryFlusher in src/core/telemetry.hpp. One thread
-- owns the flusher and calls start and stop; stop blocks it in `join` until the flusher's thread ends.
pub mod Stopping
use aether_mo_e.Common.{ℕ, ◌+◌, Bool, true, false, not, ◌&&◌, if◌then◌else◌, List, [], ◌∷◌}
use aether_mo_e.Telemetry.{Telemetry, Event, happen, drain_once, fresh}

-- Where the flusher's thread is in `run`; `ended` until it is joined.
pub data Thread : Type 0 where
  absent checking draining sleeping ended : Thread

pub record Flusher : Type 0 where
  pub running : Bool
  pub joining : Bool
  pub thread : Thread
  pub telemetry : Telemetry

abbrev pub new_flusher : Flusher
new_flusher = record { running = false; joining = false; thread = absent; telemetry = fresh }

unfoldable pub start : Flusher → Flusher
start f = if f.running then f else record f { running = true; thread = checking }

-- `stop` up to the join.
unfoldable pub begin_stop : Flusher → Flusher
begin_stop f = if not f.running then f else record f { running = false; joining = true }

-- The rest of `stop`, once the thread has ended.
unfoldable pub finish_stop : ℕ → Flusher → Flusher
finish_stop pops f = elim f.thread [
  | ended ↦ record f { joining = false; thread = absent; telemetry = drain_once pops f.telemetry }
  | absent ↦ f
  | checking ↦ f
  | draining ↦ f
  | sleeping ↦ f
]

-- One step of the loop of `run`.
unfoldable pub thread_step : ℕ → Thread → Flusher → Flusher
thread_step pops checking f = record f { thread = if f.running then draining else ended }
thread_step pops draining f = record f {
  thread = sleeping;
  telemetry = drain_once pops f.telemetry;
}
thread_step pops sleeping f = record f { thread = checking }
thread_step pops absent f = f
thread_step pops ended f = f

-- `pops` is how many pops of the drain that the step may hold find an item.
pub data Action : Type 0 where
  starts stops : Action
  joins runs : (pops : ℕ) → Action
  happens : Event → Action

-- The owner's calls wait while it is in `join`.
unfoldable pub act : Action → Flusher → Flusher
unfolding start begin_stop finish_stop thread_step happen
act starts f = if f.joining then f else start f
act stops f = if f.joining then f else begin_stop f
act (joins pops) f = if f.joining then finish_stop pops f else f
act (runs pops) f = thread_step pops f.thread f
act (happens e) f = record f { telemetry = happen f.telemetry e }

unfoldable pub play : List Action → Flusher → Flusher
unfolding act
play [] f = f
play (a ∷ acts) f = play acts (act a f)
