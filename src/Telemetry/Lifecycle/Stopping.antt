-- ===== src/Telemetry/Lifecycle/Stopping.antt =====
-- stop of TelemetryFlusher in src/core/telemetry.hpp ends, and what it leaves in the ring.
use aether_mo_e.Common.{ℕ, suc, ◌≤◌, ◌≡◌, Bool, true, false, List, [], ◌∷◌, arith}
use aether_mo_e.Telemetry.Lifecycle.{
  Thread, absent, checking, draining, sleeping, ended, Flusher, Action, starts, stops, joins, runs,
  happens, act, play,
}

-- How many steps the thread needs at most to see that it has to stop.
abbrev pub steps_left : Thread → ℕ
steps_left absent = 0
steps_left checking = 1
steps_left draining = 3
steps_left sleeping = 2
steps_left ended = 0

abbrev pub is_alive : Thread → Bool
is_alive absent = false
is_alive checking = true
is_alive draining = true
is_alive sleeping = true
is_alive ended = false

abbrev pub is_absent : Thread → Bool
is_absent absent = true
is_absent checking = false
is_absent draining = false
is_absent sleeping = false
is_absent ended = false

-- There is one thread while the flusher runs, and none when it has stopped.
pub record IsSound (f : Flusher) : Type 0 where
  pub alive : f.running ≡ true → (is_alive f.thread ≡ true) × (f.joining ≡ false)
  pub joinable : f.joining ≡ true → is_absent f.thread ≡ false
  pub none_left : f.running ≡ false → f.joining ≡ false → is_absent f.thread ≡ true

act-IsSound : (a : Action) (f : Flusher) → IsSound f → IsSound (act a f)
unfolding act
act-IsSound starts f s = ground arith
act-IsSound stops f s = ground arith
act-IsSound (joins pops) f s = ground arith
act-IsSound (runs pops) f s = ground arith
act-IsSound (happens e) f s = ground arith

pub play-IsSound : (acts : List Action) (f : Flusher) → IsSound f → IsSound (play acts f)
unfolding play
play-IsSound [] f s = s
play-IsSound (a ∷ acts) f s = play-IsSound acts (act a f) (act-IsSound a f s)

-- How many steps the thread takes, and whether the owner waits all the time.
abbrev pub thread_steps : List Action → ℕ
thread_steps [] = 0
thread_steps (runs pops ∷ acts) = suc (thread_steps acts)
thread_steps (starts ∷ acts) = thread_steps acts
thread_steps (stops ∷ acts) = thread_steps acts
thread_steps (joins pops ∷ acts) = thread_steps acts
thread_steps (happens e ∷ acts) = thread_steps acts

abbrev pub without_joins : List Action → Bool
without_joins [] = true
without_joins (joins pops ∷ acts) = false
without_joins (starts ∷ acts) = without_joins acts
without_joins (stops ∷ acts) = without_joins acts
without_joins (runs pops ∷ acts) = without_joins acts
without_joins (happens e ∷ acts) = without_joins acts

-- The owner waits in `join`, and the thread has at most `n` steps to go.
abbrev Waits : ℕ → Flusher → Type 0
Waits n f =
    (f.joining ≡ true)
    × (f.running ≡ false)
    × (is_absent f.thread ≡ false)
    × (steps_left f.thread ≤ n)
