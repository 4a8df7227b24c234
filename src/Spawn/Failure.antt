-- ===== src/Spawn/Failure.antt =====
-- spawn_workers of process_spawn.hpp when a fork fails.
use native.Mathlib.Decide.{ℕ_discrete}
use aether_mo_e.Common.{
  ℕ, ◌+◌, ◌≤◌, ◌<◌, ◌≡◌, refl, ap, ◌∙◌, List, [], ◌∷◌, length, Option, none, some, Result, ok, err,
  fork_failed, arith, length-append,
}
use aether_mo_e.Spawn.{
  router_end, worker_end, Table, Pair, SpawnedWorkers, World, Kernel, fork_children,
  fork_and_finish, finish_spawn, spawn_workers,
}
use aether_mo_e.Spawn.Descriptors.{holds}
use aether_mo_e.Spawn.Pairs.{able, pairs_from, opened_from, create_pairs_lem}
use aether_mo_e.Spawn.Children.{Unpaired, opened-holds}

-- The fork of shard `j` is the first that fails: the children before it are there.
fork_children_fails :
    (sockets : ℕ → ℕ × ℕ) (fork : ℕ → Option ℕ) (pairs : List Pair) (i j : ℕ) (shards : List ℕ)
    (s : SpawnedWorkers) (w : World)
    → fork j ≡ none
    → ((k : ℕ) → k < j → (pid : ℕ) × (fork k ≡ some pid))
    → i ≤ j
    → j < i + length shards
    → let r = fork_children (able sockets fork) pairs i shards (pairs_from sockets i shards) s w in
      (r.0 ≡ err fork_failed)
      × (r.1.table ≡ w.table)
      × (length r.1.children + i ≡ length w.children + j)
unfolding fork_children
fork_children_fails sockets fork pairs i j [] s w none_left before h k = absurd (omega arith)
fork_children_fails sockets fork pairs i j (shard ∷ shards) s w failed before h k =
    elim (ℕ_discrete i j) [
      | yes e ↦ rw (ap fork e ∙ failed, fork_children) (refl, refl, omega arith)
      | no ne ↦
          let (pid, forked) = before i (omega arith) in
          rw (forked, fork_children)
            (let (a, b, c) =
                fork_children_fails sockets fork pairs (i + 1) j shards _ _ failed before
                  (omega arith) (omega arith) in
              (a, b, omega (arith, c, length-append {0} w.children)))
    ]

-- If every socketpair succeeds, and the fork of one shard is the first that fails, spawn_workers throws
-- when it has started the workers of the shards before it. The descriptors of both ends of every pair
-- are still open in the router's process, and no SpawnedWorkers is returned that would close them: so
-- the workers that run do not see the end of their streams.
pub spawn_workers_leaks :
    (sockets : ℕ → ℕ × ℕ) (fork : ℕ → Option ℕ) (shard_ids : List ℕ) (table : Table) (j : ℕ)
    → Unpaired table
    → j < length shard_ids
    → fork j ≡ none
    → ((k : ℕ) → k < j → (pid : ℕ) × (fork k ≡ some pid))
    → let (result, w) = spawn_workers (able sockets fork) shard_ids table in
      (result ≡ err fork_failed)
      × (length w.children ≡ j)
      × ((k : ℕ)
          → k < length shard_ids
          → (holds (router_end k) w.table ≡ 1) × (holds (worker_end k) w.table ≡ 1))
unfolding spawn_workers fork_and_finish finish_spawn
spawn_workers_leaks sockets fork shard_ids table j free h failed before =
    let kernel : Kernel = able sockets fork in
    let pairs : List Pair = pairs_from sockets 0 shard_ids in
    let opened : Table = opened_from sockets 0 shard_ids table in
    rw (create_pairs_lem sockets fork 0 shard_ids table) (
      after (fork_children kernel pairs 0 shard_ids pairs _ _) (
        fork_children_fails sockets fork pairs 0 j shard_ids
          (record { transports = []; child_pids = []; shard_pids = [] })
          (record { table = opened; children = [] }) failed before (omega arith) (omega arith)))
  where
    after :
        (r : Result SpawnedWorkers × World)
        → (r.0 ≡ err fork_failed)
          × (r.1.table ≡ opened_from sockets 0 shard_ids table)
          × (length r.1.children + 0 ≡ 0 + j)
        → let (result, w) = finish_spawn shard_ids (pairs_from sockets 0 shard_ids) r in
          (result ≡ err fork_failed)
          × (length w.children ≡ j)
          × ((k : ℕ)
              → k < length shard_ids
              → (holds (router_end k) w.table ≡ 1) × (holds (worker_end k) w.table ≡ 1))
    after (ok s, w) (a, b, c) = absurd (cc)
    after (err e, w) (a, b, c) =
        (a, omega arith, λ k g. rw b (opened-holds sockets shard_ids table free k g))
