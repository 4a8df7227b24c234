-- ===== src/Chaos.antt =====
-- src/orchestration/chaos.hpp: DelayInjectingTransport and ChaosScript. A number of milliseconds that
-- is not positive is 0 here.
pub mod Sessions
pub mod Kills
mod Tests
use aether_mo_e.Common.{
  ℕ, ◌+◌, max, ltb, leb, ◌==◌, if◌then◌else◌, List, [], ◌∷◌, ◌++◌, Option, none, some, Result, ok,
  err, no_known_pid, lookup,
}
use aether_mo_e.Collective.{ICollectiveTransport}
use aether_mo_e.Spawn.{SpawnedWorkers}

-- The wrapper of one transport, with the time that it has slept.
pub record Delayed (Link : Type 0) : Type 0 where
  pub inner : Link
  pub send_delay : ℕ
  pub receive_delay : ℕ
  pub slept : ℕ

abbrev pub delay_injecting_transport : {Link : Type 0} → Link → ℕ → ℕ → Delayed Link
delay_injecting_transport inner send_delay receive_delay = record {
  inner = inner;
  send_delay = send_delay;
  receive_delay = receive_delay;
  slept = 0;
}

-- `if (d.count() > 0) sleep_for(d)`, as the time slept afterwards.
abbrev pub slept_after : {Link : Type 0} → ℕ → Delayed Link → ℕ
slept_after d l = if ltb 0 d then l.slept + d else l.slept

module _ (T : ICollectiveTransport) where
  open T use {Link}

  abbrev pub delayed_send : List ℕ → Delayed Link → Result (Unit {0}) × Delayed Link
  delayed_send message l =
      let (result, inner') = T.send message l.inner in
      (result, record l { inner = inner'; slept = slept_after l.send_delay l })

  abbrev pub delayed_receive : Delayed Link → Result (List ℕ) × Delayed Link
  delayed_receive l =
      let (result, inner') = T.receive l.inner in
      (result, record l { inner = inner'; slept = slept_after l.receive_delay l })

  abbrev pub delaying : ICollectiveTransport
  delaying = record { Link = Delayed Link; send = delayed_send; receive = delayed_receive }

abbrev pub set_send_delay : {Link : Type 0} → ℕ → Delayed Link → Delayed Link
set_send_delay d l = record l { send_delay = d }

abbrev pub set_receive_delay : {Link : Type 0} → ℕ → Delayed Link → Delayed Link
set_receive_delay d l = record l { receive_delay = d }

-- A thread that sleeps and then kills, at the time `due`; a sleep lasts exactly its delay.
pub record Kill : Type 0 where
  pub pid : ℕ
  pub due : ℕ

pub record ChaosScript : Type 0 where
  pub threads : List Kill

-- `now` is the time of the call.
pub schedule_kill_after : ℕ → ℕ → ℕ → ChaosScript → ChaosScript
schedule_kill_after pid delay now c = record c {
  threads = c.threads ++ (record { pid = pid; due = now + delay } ∷ []);
}

-- `drawn` is what the distribution over [0, window] gives, if it is asked.
unfoldable pub schedule_kill :
    SpawnedWorkers → ℕ → ℕ → ℕ → ℕ → ChaosScript → Result (Unit {0}) × ChaosScript
unfolding schedule_kill_after
schedule_kill workers shard_id window drawn now c = elim (lookup shard_id workers.shard_pids) [
  | none ↦ (err (no_known_pid shard_id), c)
  | some pid ↦ (ok tt, schedule_kill_after pid (if window == 0 then 0 else drawn) now c)
]

-- The pids that the threads have killed by a time, each thread after its own delay.
pub killed_by : ℕ → List Kill → List ℕ
killed_by time [] = []
killed_by time (k ∷ ks) =
    let rest = killed_by time ks in if leb k.due time then k.pid ∷ rest else rest

-- `for (auto& t : threads_) t.join()`, as the time afterwards.
pub join_threads : ℕ → List Kill → ℕ
join_threads now [] = now
join_threads now (k ∷ ks) = join_threads (max now k.due) ks

-- The time when the call returns, and the script then.
unfoldable pub join_all : ℕ → ChaosScript → ℕ × ChaosScript
unfolding join_threads
join_all now c = (join_threads now c.threads, record c { threads = [] })
