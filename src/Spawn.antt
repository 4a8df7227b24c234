-- ===== src/Spawn.antt =====
-- src/orchestration/process_spawn.hpp: spawn_workers, and which process has which descriptor open.
-- What socketpair, fork and waitpid return is an argument, a function of the number of the call or of
-- its pid. A forked process starts with a copy of its parent's descriptors. UnixSocketTransport of
-- src/orchestration/unix_socket_transport.hpp is here the descriptor that it owns.
pub mod Descriptors
pub mod Pairs
pub mod Closing
pub mod Children
pub mod Adoption
pub mod Isolation
pub mod Failure
mod Tests
use aether_mo_e.Common.{
  ℕ, zero, suc, ◌+◌, Bool, true, false, ◌==◌, ◌&&◌, if◌then◌else◌, List, [], ◌∷◌, ◌++◌, length,
  Option, none, some, Result, ok, err, Error, socketpair_failed, fork_failed, waitpid_failed,
  lookup, insert,
}

-- What a descriptor stands for: an end of the pair of a shard, or what was open before.
pub data File : Type 0 where
  other : File
  router_end worker_end : (pair : ℕ) → File

-- The open descriptors of a process.
abbrev pub Table : Type 0
Table = List (ℕ × File)

unfoldable pub close : ℕ → Table → Table
close fd [] = []
close fd ((k, f) ∷ table) = let rest = close fd table in if k == fd then rest else (k, f) ∷ rest

pub record Pair : Type 0 where
  pub router_fd : ℕ
  pub worker_fd : ℕ

pub record Child : Type 0 where
  pub pid : ℕ
  pub shard_id : ℕ
  -- the descriptor of its transport
  pub transport : ℕ
  pub table : Table

pub record SpawnedWorkers : Type 0 where
  -- the descriptors of the transports, by shard
  pub transports : List (ℕ × ℕ)
  pub child_pids : List ℕ
  pub shard_pids : List (ℕ × ℕ)

-- The router's process and the processes that it has forked.
pub record World : Type 0 where
  pub table : Table
  pub children : List Child

-- What the system calls return: `fds[0]` and `fds[1]` of a socketpair, and the pid of a fork.
pub record Kernel : Type 0 where
  pub socketpair : ℕ → Option (ℕ × ℕ)
  pub fork : ℕ → Option ℕ

-- ~UnixSocketTransport, and ~SpawnedWorkers with all its transports.
abbrev pub destroy_transport : ℕ → Table → Table
destroy_transport fd table = close fd table

pub destroy_transports : List (ℕ × ℕ) → Table → Table
unfolding close
destroy_transports [] table = table
destroy_transports ((shard, fd) ∷ transports) table =
    destroy_transports transports (destroy_transport fd table)

-- `transports[shard_id] = make_unique(fd)`; an older transport of the shard is destroyed.
unfoldable pub adopt : ℕ → ℕ → SpawnedWorkers → Table → SpawnedWorkers × Table
unfolding close
adopt shard_id fd s table = (
  record s { transports = insert shard_id fd s.transports },
  elim (lookup shard_id s.transports) [ none ↦ table | some old ↦ destroy_transport old table ],
)

-- What a child closes: all but its own end.
unfoldable pub close_others : ℕ → ℕ → List Pair → Table → Table
unfolding close
close_others i j [] table = table
close_others i j (p ∷ pairs) table =
    close_others i (j + 1) pairs
      (if j == i then close p.router_fd table else close p.worker_fd (close p.router_fd table))

-- The exit status of a child: what its worker returns, or 1 if it throws.
abbrev pub exit_code : Result ℕ → ℕ
exit_code (ok rc) = rc
exit_code (err e) = 1

-- Phase 3.
unfoldable pub adopt_all : List ℕ → List Pair → SpawnedWorkers → Table → SpawnedWorkers × Table
unfolding adopt
adopt_all (shard ∷ shards) (p ∷ pairs) s table =
    let (s', table') = adopt shard p.router_fd s (close p.worker_fd table) in
    adopt_all shards pairs s' table'
adopt_all [] pairs s table = (s, table)
adopt_all (shard ∷ shards) [] s table = (s, table)

-- Phase 3, unless a fork failed.
unfoldable pub finish_spawn :
    List ℕ → List Pair → Result SpawnedWorkers × World → Result SpawnedWorkers × World
unfolding adopt_all
finish_spawn shard_ids pairs (err e, w) = (err e, w)
finish_spawn shard_ids pairs (ok s, w) =
    let (s', table) = adopt_all shard_ids pairs s w.table in (ok s', record w { table = table })

module _ (kernel : Kernel) where
  -- Phase 1, from pair `i` on.
  unfoldable pub create_pairs : ℕ → List ℕ → Table → Result (List Pair) × Table
  create_pairs i [] table = (ok [], table)
  create_pairs i (shard ∷ shards) table = elim (kernel.socketpair i) [
    | none ↦ (err socketpair_failed, table)
    | some (r, w) ↦
        let (rest, table') =
          create_pairs (i + 1) shards ((r, router_end i) ∷ (w, worker_end i) ∷ table) in
        (
          elim rest [
            | err e ↦ err e
            | ok pairs ↦ ok (record { router_fd = r; worker_fd = w } ∷ pairs)
          ],
          table',
        )
  ]

  -- Phase 2, from shard `i` on; `own` are the pairs of the shards that are left.
  unfoldable pub fork_children :
      List Pair → ℕ → List ℕ → List Pair → SpawnedWorkers → World → Result SpawnedWorkers × World
  unfolding close_others
  fork_children pairs i (shard ∷ shards) (p ∷ own) s w = elim (kernel.fork i) [
    | none ↦ (err fork_failed, w)
    | some pid ↦
        fork_children pairs (i + 1) shards own
          (record s {
            child_pids = s.child_pids ++ (pid ∷ []);
            shard_pids = insert shard pid s.shard_pids;
          })
          (record w {
            children =
                w.children
                ++ (record {
                  pid = pid;
                  shard_id = shard;
                  transport = p.worker_fd;
                  table = close_others i 0 pairs w.table;
                }
                    ∷ []);
          })
  ]
  fork_children pairs i [] own s w = (ok s, w)
  fork_children pairs i (shard ∷ shards) [] s w = (ok s, w)

  -- Phases 2 and 3, unless a socketpair failed.
  unfoldable pub fork_and_finish :
      List ℕ → Result (List Pair) × Table → Result SpawnedWorkers × World
  unfolding fork_children finish_spawn
  fork_and_finish shard_ids (err e, table) = (err e, record { table = table; children = [] })
  fork_and_finish shard_ids (ok pairs, table) = finish_spawn shard_ids pairs (
      fork_children pairs 0 shard_ids pairs
        (record { transports = []; child_pids = []; shard_pids = [] })
        (record { table = table; children = [] }))

  unfoldable pub spawn_workers : List ℕ → Table → Result SpawnedWorkers × World
  unfolding create_pairs fork_and_finish
  spawn_workers shard_ids table = fork_and_finish shard_ids (create_pairs 0 shard_ids table)

-- `SpawnedWorkers::join_all`, over what waitpid gives for each pid.
unfoldable pub wait_all : (ℕ → Option ℕ) → List ℕ → Result (List ℕ)
wait_all waitpid [] = ok []
wait_all waitpid (pid ∷ pids) =
    let rest = wait_all waitpid pids in
    elim (waitpid pid) [
      | none ↦ err waitpid_failed
      | some status ↦ elim rest [ err e ↦ err e | ok statuses ↦ ok (status ∷ statuses) ]
    ]

pub join_all : (ℕ → Option ℕ) → SpawnedWorkers → Result (List ℕ)
unfolding wait_all
join_all waitpid s = wait_all waitpid s.child_pids
