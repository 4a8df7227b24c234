-- ===== src/Spawn/Isolation.antt =====
-- Each end of a pair is open in one process only: spawn_workers of process_spawn.hpp, when the system
-- calls succeed.
use aether_mo_e.Common.{
  lookup, get_or, ℕ, zero, suc, ◌+◌, ◌≤◌, ◌<◌, ◌≡◌, refl, ap, ◌∙◌, List, [], ◌∷◌, length, map, some,
  Result, ok, arith, count, ◌==◌, if◌then◌else◌,
}
use aether_mo_e.Spawn.{
  File, router_end, worker_end, Table, Pair, Child, SpawnedWorkers, World, Kernel, close_others,
  destroy_transports, fork_and_finish, finish_spawn, spawn_workers,
}
use aether_mo_e.Spawn.Descriptors.{
  holds, SitsAt, close_all, close_all-holds_le, close_all-SitsAt, close_all-closes,
  close_all-spares,
}
use aether_mo_e.Spawn.Pairs.{able, pairs_from, opened_from, create_pairs_lem}
use aether_mo_e.Spawn.Closing.{
  destroy_transports_lem, workers_from, routers_from, count-routers, in_range-routers,
}
use aether_mo_e.Spawn.Children.{
  children_from, pids_from, numbered_onto, Distinct, Unpaired, opened-SitsAt, opened-holds,
  fork_children_lem, held_by, children-held_by, child-holds,
}
use aether_mo_e.Spawn.Adoption.{transports_from, descriptors-transports_from, adopt_all_lem}

-- How many descriptors of all the processes stand for `f`.
abbrev pub holders : File → World → ℕ
holders f w = holds f w.table + held_by f w.children

-- The router's process after the transports are destroyed.
abbrev pub hang_up : SpawnedWorkers → World → World
hang_up s w = record w { table = destroy_transports s.transports w.table }

module _ (sockets : ℕ → ℕ × ℕ) (pids : ℕ → ℕ) (shard_ids : List ℕ) (table : Table) where
  abbrev opened : Table
  opened = opened_from sockets 0 shard_ids table

  abbrev pub spawned : SpawnedWorkers
  spawned = record {
    transports = transports_from sockets 0 shard_ids;
    child_pids = pids_from pids 0 shard_ids;
    shard_pids = numbered_onto pids 0 shard_ids [];
  }

  abbrev pub world : World
  world = record {
    table = close_all (workers_from sockets 0 shard_ids) opened;
    children = children_from sockets pids (pairs_from sockets 0 shard_ids) opened 0 shard_ids;
  }

  -- What spawn_workers returns, and leaves.
  pub spawn_workers_lem :
      ((q : ℕ) → count q shard_ids ≤ 1)
      → spawn_workers (able sockets (λ k. some (pids k))) shard_ids table ≡ (ok spawned, world)
  unfolding spawn_workers fork_and_finish finish_spawn lookup
  spawn_workers_lem one =
      let kernel : Kernel = able sockets (λ k. some (pids k)) in
      let pairs : List Pair = pairs_from sockets 0 shard_ids in
      let none_yet : SpawnedWorkers = record {
        transports = [];
        child_pids = [];
        shard_pids = [];
      } in
      let forked : SpawnedWorkers = record {
        transports = [];
        child_pids = pids_from pids 0 shard_ids;
        shard_pids = numbered_onto pids 0 shard_ids [];
      } in
      ap (fork_and_finish kernel shard_ids)
        (create_pairs_lem sockets (λ k. some (pids k)) 0 shard_ids table)
      ∙ ap (finish_spawn shard_ids pairs) (
          fork_children_lem sockets pids pairs 0 shard_ids none_yet
            (record { table = opened; children = [] }))
      ∙ ap
          (λ (r : SpawnedWorkers × Table).
            let w : World = record { table = r.1; children = world.children } in
            let end : Result SpawnedWorkers × World = (ok r.0, w) in end)
          (adopt_all_lem sockets 0 shard_ids forked opened one (λ q m. refl))

  module _ (free : Unpaired table) (d : Distinct sockets shard_ids) (k : ℕ)
      (h : k < length shard_ids) where
    sits : SitsAt (sockets k).0 (router_end k) opened × SitsAt (sockets k).1 (worker_end k) opened
    sits = opened-SitsAt sockets shard_ids table free k

    router_keeps : (holds (router_end k) world.table ≡ 1) × (holds (worker_end k) world.table ≡ 0)
    router_keeps =
        let r : ℕ = (sockets k).0 in
        let workers : List ℕ = workers_from sockets 0 shard_ids in
        let listed = in_range-routers sockets k 0 shard_ids (ground arith) in
        let spared : count r workers ≡ 0 =
          omega (arith, d r, count-routers sockets r 0 shard_ids, listed.0) in
        (
          omega (
            arith,
            close_all-SitsAt workers r (router_end k) opened sits.0,
            close_all-spares workers r (router_end k) opened spared,
            sits.0,
            (opened-holds sockets shard_ids table free k h).0,
          ),
          close_all-closes workers (sockets k).1 (worker_end k) opened sits.1 listed.1,
        )

    hang_up-holds :
        (holds (router_end k) (hang_up spawned world).table ≡ 0)
        × (holds (worker_end k) (hang_up spawned world).table ≡ 0)
    hang_up-holds =
        let r : ℕ = (sockets k).0 in
        let workers : List ℕ = workers_from sockets 0 shard_ids in
        let routers : List ℕ = routers_from sockets 0 shard_ids in
        let listed = in_range-routers sockets k 0 shard_ids (ground arith) in
        rw
          (
            destroy_transports_lem (transports_from sockets 0 shard_ids) world.table,
            descriptors-transports_from sockets 0 shard_ids,
          )
          (
            close_all-closes routers r (router_end k) world.table
                (close_all-SitsAt workers r (router_end k) opened sits.0) listed.0,
            omega (arith, close_all-holds_le routers (worker_end k) world.table, router_keeps.1),
          )

child_table :
    (sockets : ℕ → ℕ × ℕ) (pids : ℕ → ℕ) (pairs : List Pair) (table : Table) (i j n : ℕ)
    (shards : List ℕ)
    → i < length shards
    → j + i ≡ n
    → get_or (map (λ (c : Child). c.table) (children_from sockets pids pairs table j shards)) i []
      ≡ close_others n 0 pairs table
child_table sockets pids pairs table i j n [] h e = absurd (omega arith)
child_table sockets pids pairs table zero j n (shard ∷ shards) h e =
    ap (λ m. close_others m 0 pairs table) (omega arith)
child_table sockets pids pairs table (suc i) j n (shard ∷ shards) h e =
    child_table sockets pids pairs table i (j + 1) n shards (omega arith) (omega arith)

-- If every socketpair and fork succeeds, the shards are distinct and so are the descriptors, then
-- spawn_workers returns. The router's end of each pair is open once, in the router's process; the
-- other end is open once, in the process of its shard, and no child has an end of another pair. Once
-- the transports are destroyed, no process has the router's end open, so that the worker can see the
-- end of its stream.
pub spawn_workers_isolates :
    (sockets : ℕ → ℕ × ℕ) (pids : ℕ → ℕ) (shard_ids : List ℕ) (table : Table)
    → Unpaired table
    → Distinct sockets shard_ids
    → ((q : ℕ) → count q shard_ids ≤ 1)
    → (s : SpawnedWorkers) × (w : World) × (spawn_workers
          (able sockets (λ k. some (pids k)))
          shard_ids
          table
        ≡ (ok s, w))
      × ((k : ℕ)
          → k < length shard_ids
          → (holders (router_end k) w ≡ 1)
            × (holds (router_end k) w.table ≡ 1)
            × (holders (worker_end k) w ≡ 1)
            × ((i : ℕ)
                → i < length shard_ids
                → holds (worker_end k) (get_or (map (λ (c : Child). c.table) w.children) i [])
                  ≡ (if i == k then 1 else 0))
            × (holders (router_end k) (hang_up s w) ≡ 0)
            × (holders (worker_end k) (hang_up s w) ≡ 1))
spawn_workers_isolates sockets pids shard_ids table free d one =
    let w : World = world sockets pids shard_ids table in
    let all : Table = opened sockets pids shard_ids table in
    (
      spawned sockets pids shard_ids table,
      w,
      spawn_workers_lem sockets pids shard_ids table one,
      λ k h.
          let kept = router_keeps sockets pids shard_ids table free d k h in
          let gone = hang_up-holds sockets pids shard_ids table free d k h in
          let children = children-held_by sockets shard_ids table free d pids k 0 shard_ids h in
          (
            omega (arith, kept, children),
            kept.0,
            ground (arith, kept, children),
            λ i g.
                rw
                  (child_table sockets pids (pairs_from sockets 0 shard_ids) all i 0 i shard_ids g
                    (omega arith))
                  (child-holds sockets shard_ids table free k i d h).1,
            omega (arith, gone, children),
            ground (arith, gone, children),
          ),
    )
