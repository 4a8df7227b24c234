-- ===== src/Spawn/Children.antt =====
-- Phase 2 of spawn_workers of process_spawn.hpp: which ends each child has open.
use native.Mathlib.Decide.{ℕ_discrete}
use aether_mo_e.Common.{
  ℕ, ◌+◌, ◌≤◌, ◌<◌, ◌≡◌, ◌∙◌, sym, ◌==◌, if◌then◌else◌, List, [], ◌∷◌, ◌++◌, length, some, ok,
  arith, count, append_assoc, append-nil, insert,
}
use aether_mo_e.Spawn.{
  File, router_end, worker_end, Table, Pair, Child, SpawnedWorkers, World, close_others,
  fork_children,
}
use aether_mo_e.Spawn.Descriptors.{
  holds, holds-close, SitsAt, close_all, close_all-SitsAt, close_all-closes, close_all-spares,
}
use aether_mo_e.Spawn.Pairs.{able, fds, pairs_from, opened_from, in_range, opened_from-holds}
use aether_mo_e.Spawn.Closing.{others, close_others_lem, count-others, in_range-others}

abbrev pub pids_from : (ℕ → ℕ) → ℕ → List ℕ → List ℕ
pids_from pids i [] = []
pids_from pids i (shard ∷ shards) = pids i ∷ pids_from pids (i + 1) shards

-- A map with the number's value for each shard put in.
abbrev pub numbered_onto : (ℕ → ℕ) → ℕ → List ℕ → List (ℕ × ℕ) → List (ℕ × ℕ)
numbered_onto f i [] dict = dict
numbered_onto f i (shard ∷ shards) dict = numbered_onto f (i + 1) shards (insert shard (f i) dict)

-- How many descriptors of the children stand for `f`.
abbrev pub held_by : File → List Child → ℕ
held_by f [] = 0
held_by f (c ∷ children) = holds f c.table + held_by f children

-- No end of a pair is open yet.
abbrev pub Unpaired : Table → Type 0
Unpaired table = (k : ℕ) → (holds (router_end k) table ≡ 0) × (holds (worker_end k) table ≡ 0)

module _ (sockets : ℕ → ℕ × ℕ) where
  -- The children, each with the table that it is left with.
  abbrev pub children_from : (ℕ → ℕ) → List Pair → Table → ℕ → List ℕ → List Child
  children_from pids pairs table i [] = []
  children_from pids pairs table i (shard ∷ shards) =
      record {
        pid = pids i;
        shard_id = shard;
        transport = (sockets i).1;
        table = close_others i 0 pairs table;
      }
      ∷ children_from pids pairs table (i + 1) shards

  -- No two descriptors that socketpair returns are the same, as long as they are open.
  abbrev pub Distinct : List ℕ → Type 0
  Distinct shards = (fd : ℕ) → count fd (fds (pairs_from sockets 0 shards)) ≤ 1

  module _ (shards : List ℕ) (table : Table) (free : Unpaired table) where
    abbrev pub opened : Table
    opened = opened_from sockets 0 shards table

    abbrev pub pairs : List Pair
    pairs = pairs_from sockets 0 shards

    pub opened-SitsAt :
        (k : ℕ)
        → SitsAt (sockets k).0 (router_end k) opened × SitsAt (sockets k).1 (worker_end k) opened
    opened-SitsAt k = ground (
      arith,
      free k,
      holds-close (sockets k).0 (router_end k) table,
      holds-close (sockets k).1 (worker_end k) table,
      opened_from-holds sockets k (sockets k).0 0 shards table,
      opened_from-holds sockets k (sockets k).1 0 shards table,
    )

    -- Each end of a pair is open once.
    pub opened-holds :
        (k : ℕ)
        → k < length shards
        → (holds (router_end k) opened ≡ 1) × (holds (worker_end k) opened ≡ 1)
    opened-holds k h = ground (arith, free k, opened_from-holds sockets k 0 0 shards table)

    keeps_own_end :
        (i : ℕ)
        → Distinct shards
        → i < length shards
        → holds (worker_end i) (close_all (others i 0 pairs) opened) ≡ 1
    keeps_own_end i d h =
        let w : ℕ = (sockets i).1 in
        let spared : count w (others i 0 pairs) ≡ 0 =
          ground (arith, d w, count-others sockets w i 0 shards) in
        omega (
          arith,
          close_all-SitsAt (others i 0 pairs) w (worker_end i) opened (opened-SitsAt i).1,
          close_all-spares (others i 0 pairs) w (worker_end i) opened spared,
          (opened-SitsAt i).1,
          (opened-holds i h).1,
        )

    -- A child has its own end, and no other.
    pub child-holds :
        (k i : ℕ)
        → Distinct shards
        → k < length shards
        → (holds (router_end k) (close_others i 0 pairs opened) ≡ 0)
          × (holds (worker_end k) (close_others i 0 pairs opened) ≡ (if i == k then 1 else 0))
    child-holds k i d h =
        let (router, worker) = opened-SitsAt k in
        let (closes_router, closes_worker) = in_range-others sockets k i 0 shards (ground arith) in
        rw (close_others_lem i 0 pairs opened) (
          close_all-closes (others i 0 pairs) (sockets k).0 (router_end k) opened router
              closes_router,
          elim (ℕ_discrete i k) [
            | yes e ↦ ground (arith, keeps_own_end i d (omega arith))
            | no ne ↦ ground (
              arith,
              close_all-closes (others i 0 pairs) (sockets k).1 (worker_end k) opened worker
                  (closes_worker (λ e. ne (sym e))),
            )
          ],
        )

  -- Every fork succeeds: the children are added, and the router's table is as it was.
  pub fork_children_lem :
      (pids : ℕ → ℕ) (pairs : List Pair) (i : ℕ) (shards : List ℕ) (s : SpawnedWorkers) (w : World)
      → fork_children
          (able sockets (λ k. some (pids k)))
          pairs
          i
          shards
          (pairs_from sockets i shards)
          s
          w
        ≡ (
          ok (record s {
            child_pids = s.child_pids ++ pids_from pids i shards;
            shard_pids = numbered_onto pids i shards s.shard_pids;
          }),
          record w { children = w.children ++ children_from pids pairs w.table i shards },
        )
  unfolding fork_children
  fork_children_lem pids pairs i [] s w = simp (append-nil)
  fork_children_lem pids pairs i (shard ∷ shards) s w =
      fork_children_lem pids pairs (i + 1) shards _ _ ∙ simp (append_assoc)

  module _ (all : List ℕ) (table : Table) (free : Unpaired table) (d : Distinct all) where
    -- Together they have each worker's end once, and no end of the router.
    pub children-held_by :
        (pids : ℕ → ℕ) (k i : ℕ) (shards : List ℕ)
        → k < length all
        → let children =
            children_from pids
              (pairs_from sockets 0 all)
              (opened_from sockets 0 all table)
              i
              shards in
          (held_by (router_end k) children ≡ 0)
          × (held_by (worker_end k) children ≡ (if in_range k i (length shards) then 1 else 0))
    children-held_by pids k i [] h = ground arith
    children-held_by pids k i (shard ∷ shards) h =
        ground (arith, child-holds all table free k i d h, children-held_by pids k (i + 1) shards h)
