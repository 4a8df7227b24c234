-- ===== src/Chaos/Kills.antt =====
-- ChaosScript of chaos.hpp on the processes of spawn_workers.
use aether_mo_e.Common.{
  leb, le→leb, max, All, ℕ, zero, suc, ◌+◌, ◌≤◌, ◌<◌, ◌≡◌, refl, ap, ◌∙◌, List, [], ◌∷◌, ◌++◌, map,
  length, none, some, ok, err, no_known_pid, lookup, insert, lookup-insert, count, get_or, arith,
  ◌==◌, if◌then◌else◌,
}
use aether_mo_e.Spawn.{Pair, SpawnedWorkers, Table, Child, World, spawn_workers}
use aether_mo_e.Spawn.Pairs.{able, pairs_from, opened_from}
use aether_mo_e.Spawn.Children.{numbered_onto, children_from}
use aether_mo_e.Spawn.Isolation.{spawned, world, spawn_workers_lem}
use aether_mo_e.Chaos.{
  ChaosScript, Kill, schedule_kill, schedule_kill_after, killed_by, join_threads, join_all,
}

-- What a map has for a shard that is not put in, and for one that is.
lookup-numbered_onto_old :
    (f : ℕ → ℕ) (i q : ℕ) (shards : List ℕ) (dict : List (ℕ × ℕ))
    → count q shards ≡ 0
    → lookup q (numbered_onto f i shards dict) ≡ lookup q dict
lookup-numbered_onto_old f i q [] dict h = refl
lookup-numbered_onto_old f i q (shard ∷ shards) dict h = ground (
  arith,
  lookup-numbered_onto_old f (i + 1) q shards (insert shard (f i) dict),
  lookup-insert shard q (f i) dict,
)

lookup-numbered_onto :
    (f : ℕ → ℕ) (i k n : ℕ) (shards : List ℕ) (dict : List (ℕ × ℕ))
    → ((q : ℕ) → count q shards ≤ 1)
    → k < length shards
    → i + k ≡ n
    → lookup (get_or shards k 0) (numbered_onto f i shards dict) ≡ some (f n)
lookup-numbered_onto f i k n [] dict one h e = absurd (omega arith)
lookup-numbered_onto f i zero n (shard ∷ shards) dict one h e =
    lookup-numbered_onto_old f (i + 1) shard shards (insert shard (f i) dict)
      (ground (arith, one shard))
    ∙ ground (arith, lookup-insert shard shard (f i) dict, ap f e)
lookup-numbered_onto f i (suc k) n (shard ∷ shards) dict one h e =
    lookup-numbered_onto f (i + 1) k n shards (insert shard (f i) dict) (λ q. ground (arith, one q))
      (omega arith) (omega arith)

child_pid :
    (sockets : ℕ → ℕ × ℕ) (pids : ℕ → ℕ) (pairs : List Pair) (table : Table) (i k n : ℕ)
    (shards : List ℕ)
    → k < length shards
    → i + k ≡ n
    → get_or (map (λ (c : Child). c.pid) (children_from sockets pids pairs table i shards)) k 0
      ≡ pids n
child_pid sockets pids pairs table i k n [] h e = absurd (omega arith)
child_pid sockets pids pairs table i zero n (shard ∷ shards) h e = ap pids (omega arith)
child_pid sockets pids pairs table i (suc k) n (shard ∷ shards) h e =
    child_pid sockets pids pairs table (i + 1) k n shards (omega arith) (omega arith)

count-killed_by :
    (q time : ℕ) (ks : List Kill) (k : Kill)
    → count q (killed_by time (ks ++ (k ∷ [])))
      ≡ count q (killed_by time ks) + (if leb k.due time then (if q == k.pid then 1 else 0) else 0)
unfolding killed_by
count-killed_by q time [] k = ground arith
count-killed_by q time (j ∷ ks) k = ground (arith, count-killed_by q time ks k)

join_threads-le : (now : ℕ) (ks : List Kill) → now ≤ join_threads now ks
unfolding join_threads
join_threads-le now [] = omega arith
join_threads-le now (k ∷ ks) = omega (arith, join_threads-le (max now k.due) ks)

-- Joining waits for the longest sleep.
join_threads-due : (now : ℕ) (ks : List Kill) → All (λ (k : Kill). k.due ≤ join_threads now ks) ks
unfolding join_threads
join_threads-due now [] = tt
join_threads-due now (k ∷ ks) =
    (omega (arith, join_threads-le (max now k.due) ks), join_threads-due (max now k.due) ks)

killed_by_complete :
    (time : ℕ) (ks : List Kill)
    → All (λ (k : Kill). k.due ≤ time) ks
    → killed_by time ks ≡ map (λ (k : Kill). k.pid) ks
unfolding killed_by
killed_by_complete time [] h = refl
killed_by_complete time (k ∷ ks) h =
    rw (le→leb k.due time h.0) (ap (λ l. k.pid ∷ l) (killed_by_complete time ks h.1))

-- What a call at the time `now` leaves: one thread more, which kills the process `pid` when what was
-- drawn has passed, and nothing else changes; a later join returns after that time, when the threads
-- have killed all that they are to kill, and leaves no thread.
pub record IsScheduled (pid drawn now : ℕ) (c c' : ChaosScript) : Type 0 where
  pub kills :
      (time q : ℕ)
      → count q (killed_by time c'.threads)
        ≡ count q (killed_by time c.threads)
          + (if leb (now + drawn) time then (if q == pid then 1 else 0) else 0)
  pub joined : (later : ℕ) → now + drawn ≤ (join_all later c').0
  pub all :
      (later : ℕ)
      → killed_by (join_all later c').0 c'.threads ≡ map (λ (k : Kill). k.pid) c'.threads
  pub none_left : (later : ℕ) → (join_all later c').1.threads ≡ []

last-All : (P : Kill → Type 0) (ks : List Kill) (k : Kill) → All P (ks ++ (k ∷ [])) → P k
last-All P [] k h = h.0
last-All P (j ∷ ks) k h = last-All P ks k h.1

after-IsScheduled :
    (pid drawn now : ℕ) (c : ChaosScript)
    → IsScheduled pid drawn now c (schedule_kill_after pid drawn now c)
unfolding schedule_kill_after join_all
after-IsScheduled pid drawn now c =
    let k : Kill = record { pid = pid; due = now + drawn } in
    let ks : List Kill = c.threads ++ (k ∷ []) in
    record {
      kills = λ time q. count-killed_by q time c.threads k;
      joined = λ later.
          last-All (λ (x : Kill). x.due ≤ join_threads later ks) c.threads k
            (join_threads-due later ks);
      all = λ later. killed_by_complete (join_threads later ks) ks (join_threads-due later ks);
      none_left = λ later. refl;
    }

schedule_kill_known :
    (s : SpawnedWorkers) (shard pid window drawn now : ℕ) (c : ChaosScript)
    → lookup shard s.shard_pids ≡ some pid
    → drawn ≤ window
    → let (result, c') = schedule_kill s shard window drawn now c in
      (result ≡ ok tt) × IsScheduled pid drawn now c c'
unfolding schedule_kill
schedule_kill_known s shard pid window drawn now c found drawn_le =
    let delay : (if window == 0 then 0 else drawn) ≡ drawn = ground arith in
    rw (found, schedule_kill) (refl, rw delay (after-IsScheduled pid drawn now c))

schedule_kill_unknown :
    (s : SpawnedWorkers) (shard window drawn now : ℕ) (c : ChaosScript)
    → lookup shard s.shard_pids ≡ none
    → schedule_kill s shard window drawn now c ≡ (err (no_known_pid shard), c)
unfolding schedule_kill
schedule_kill_unknown s shard window drawn now c absent = rw (absent, schedule_kill) refl

-- On the workers that spawn_workers returns, when the system calls succeed and the shards are distinct:
-- schedule_kill for a shard returns, and if what is drawn lies in the window, the process of that shard
-- is killed when what was drawn has passed, not before, and nothing else changes for any process at any
-- time; a later join_all returns after that, when all scheduled kills have happened, and leaves no
-- thread. For any other shard it throws and schedules nothing. A sleep lasts exactly its delay.
pub schedule_kill_hits :
    (sockets : ℕ → ℕ × ℕ) (pids : ℕ → ℕ) (shard_ids : List ℕ) (table : Table)
    → ((q : ℕ) → count q shard_ids ≤ 1)
    → (s : SpawnedWorkers) × (w : World) × (spawn_workers
          (able sockets (λ k. some (pids k)))
          shard_ids
          table
        ≡ (ok s, w))
      × ((k window drawn now : ℕ) (c : ChaosScript)
          → k < length shard_ids
          → drawn ≤ window
          → let (result, c') = schedule_kill s (get_or shard_ids k 0) window drawn now c in
            let pid = get_or (map (λ (x : Child). x.pid) w.children) k 0 in
            (result ≡ ok tt) × IsScheduled pid drawn now c c')
      × ((q window drawn now : ℕ) (c : ChaosScript)
          → count q shard_ids ≡ 0
          → schedule_kill s q window drawn now c ≡ (err (no_known_pid q), c))
unfolding lookup
schedule_kill_hits sockets pids shard_ids table one = (
  spawned sockets pids shard_ids table,
  world sockets pids shard_ids table,
  spawn_workers_lem sockets pids shard_ids table one,
  λ k window drawn now c h g.
      rw
        (child_pid sockets pids (pairs_from sockets 0 shard_ids)
          (opened_from sockets 0 shard_ids table) 0 k k shard_ids h (omega arith))
        (schedule_kill_known (spawned sockets pids shard_ids table) (get_or shard_ids k 0) (pids k)
          window drawn now c (lookup-numbered_onto pids 0 k k shard_ids [] one h (omega arith)) g),
  λ q window drawn now c h.
      schedule_kill_unknown (spawned sockets pids shard_ids table) q window drawn now c
        (lookup-numbered_onto_old pids 0 q shard_ids [] h),
)
