-- ===== src/Spawn/Tests.antt =====
-- Three workers for the shards 7, 9 and 8.
use aether_mo_e.Common.{
  lookup, insert, ℕ, ◌+◌, ◌*◌, ◌≤◌, ◌<◌, ◌≡◌, refl, List, [], ◌∷◌, map, length, Option, none, some,
  Result, ok, err, fork_failed, waitpid_failed, ltb, ◌==◌, if◌then◌else◌, arith, count, get_or,
}
use aether_mo_e.Spawn.{
  other, router_end, worker_end, Table, Child, SpawnedWorkers, World, spawn_workers, join_all,
}
use aether_mo_e.Spawn.Descriptors.{holds}
use aether_mo_e.Spawn.Pairs.{able}
use aether_mo_e.Spawn.Children.{Distinct, Unpaired}
use aether_mo_e.Spawn.Isolation.{holders, hang_up, spawn_workers_isolates}
use aether_mo_e.Spawn.Failure.{spawn_workers_leaks}

abbrev sockets : ℕ → ℕ × ℕ
sockets k = (2 * k + 3, 2 * k + 4)

abbrev pids : ℕ → ℕ
pids k = 100 + k

abbrev shards : List ℕ
shards = 7 ∷ 9 ∷ 8 ∷ []

abbrev stdio : Table
stdio = (0, other) ∷ (1, other) ∷ (2, other) ∷ []

stdio-Unpaired : Unpaired stdio
stdio-Unpaired k = (refl, refl)

sockets-Distinct : Distinct sockets shards
sockets-Distinct fd = ground arith

shards_once : (q : ℕ) → count q shards ≤ 1
shards_once q = ground arith

abbrev tables : Result SpawnedWorkers × World → List Table
tables (r, w) = w.table ∷ map (λ (c : Child). c.table) w.children

tables_after :
    tables (spawn_workers (able sockets (λ k. some (pids k))) shards stdio)
    ≡ ((7, router_end 2) ∷ (5, router_end 1) ∷ (3, router_end 0) ∷ stdio)
      ∷ ((4, worker_end 0) ∷ stdio)
      ∷ ((6, worker_end 1) ∷ stdio)
      ∷ ((8, worker_end 2) ∷ stdio)
      ∷ []
unfolding spawn_workers lookup insert
tables_after = refl

statuses_after :
    join_all
      (λ pid. if pid == 101 then none else some 0)
      (record { transports = []; child_pids = 100 ∷ 101 ∷ []; shard_pids = [] })
    ≡ err waitpid_failed
unfolding join_all
statuses_after = refl

spawn_workers_isolates_example :
    (s : SpawnedWorkers) × (w : World) × (spawn_workers
        (able sockets (λ k. some (pids k)))
        shards
        stdio
      ≡ (ok s, w))
    × ((k : ℕ)
        → k < 3
        → (holders (router_end k) w ≡ 1)
          × (holds (router_end k) w.table ≡ 1)
          × (holders (worker_end k) w ≡ 1)
          × ((i : ℕ)
              → i < 3
              → holds (worker_end k) (get_or (map (λ (c : Child). c.table) w.children) i [])
                ≡ (if i == k then 1 else 0))
          × (holders (router_end k) (hang_up s w) ≡ 0)
          × (holders (worker_end k) (hang_up s w) ≡ 1))
spawn_workers_isolates_example =
    spawn_workers_isolates sockets pids shards stdio stdio-Unpaired sockets-Distinct shards_once

abbrev only_one : ℕ → Option ℕ
only_one k = if ltb k 1 then some (pids k) else none

only_one_before : (k : ℕ) → k < 1 → (pid : ℕ) × (only_one k ≡ some pid)
only_one_before k h = (pids k, ground arith)

spawn_workers_leaks_example :
    let (result, w) = spawn_workers (able sockets only_one) shards stdio in
    (result ≡ err fork_failed)
    × (length w.children ≡ 1)
    × ((k : ℕ) → k < 3 → (holds (router_end k) w.table ≡ 1) × (holds (worker_end k) w.table ≡ 1))
spawn_workers_leaks_example =
    spawn_workers_leaks sockets only_one shards stdio 1 stdio-Unpaired (omega arith) refl
      only_one_before
