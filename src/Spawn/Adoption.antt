-- ===== src/Spawn/Adoption.antt =====
-- Phase 3 of spawn_workers of process_spawn.hpp: which ends the router keeps.
use aether_mo_e.Common.{
  ℕ, ◌+◌, ◌≤◌, ◌≡◌, refl, ap, ◌∙◌, List, [], ◌∷◌, ◌++◌, none, arith, count, append_assoc,
  append-nil, insert, lookup, lookup-insert, map,
}
use aether_mo_e.Spawn.{Table, SpawnedWorkers, adopt, adopt_all, close}
use aether_mo_e.Spawn.Descriptors.{close_all}
use aether_mo_e.Spawn.Pairs.{pairs_from}
use aether_mo_e.Spawn.Closing.{workers_from, routers_from}

-- The transports, each under its shard.
abbrev pub transports_from : (ℕ → ℕ × ℕ) → ℕ → List ℕ → List (ℕ × ℕ)
transports_from sockets i [] = []
transports_from sockets i (shard ∷ shards) =
    (shard, (sockets i).0) ∷ transports_from sockets (i + 1) shards

pub descriptors-transports_from :
    (sockets : ℕ → ℕ × ℕ) (i : ℕ) (shards : List ℕ)
    → map (λ (t : ℕ × ℕ). t.1) (transports_from sockets i shards) ≡ routers_from sockets i shards
descriptors-transports_from sockets i [] = refl
descriptors-transports_from sockets i (shard ∷ shards) =
    ap (λ l. (sockets i).0 ∷ l) (descriptors-transports_from sockets (i + 1) shards)

insert_new :
    (k v : ℕ) (dict : List (ℕ × ℕ)) → lookup k dict ≡ none → insert k v dict ≡ dict ++ ((k, v) ∷ [])
unfolding lookup insert
insert_new k v [] h = refl
insert_new k v ((j, u) ∷ dict) h = ground (arith, insert_new k v dict)

adopt_new :
    (shard fd : ℕ) (s : SpawnedWorkers) (table : Table)
    → lookup shard s.transports ≡ none
    → adopt shard fd s table ≡ (record s { transports = s.transports ++ ((shard, fd) ∷ []) }, table)
unfolding adopt
adopt_new shard fd s table h = rw (h, insert_new shard fd s.transports h)

-- With distinct shards no transport is replaced: the router closes the workers' ends only.
pub adopt_all_lem :
    (sockets : ℕ → ℕ × ℕ) (i : ℕ) (shards : List ℕ) (s : SpawnedWorkers) (table : Table)
    → ((q : ℕ) → count q shards ≤ 1)
    → ((q : ℕ) → 1 ≤ count q shards → lookup q s.transports ≡ none)
    → adopt_all shards (pairs_from sockets i shards) s table ≡ (
      record s { transports = s.transports ++ transports_from sockets i shards },
      close_all (workers_from sockets i shards) table,
    )
unfolding adopt_all
adopt_all_lem sockets i [] s table one absent = simp (append-nil)
adopt_all_lem sockets i (shard ∷ shards) s table one absent =
    let fd : ℕ = (sockets i).0 in
    let new : lookup shard s.transports ≡ none = absent shard (ground arith) in
    let grown : List (ℕ × ℕ) = s.transports ++ ((shard, fd) ∷ []) in
    ap
      (λ (r : SpawnedWorkers × Table). adopt_all shards (pairs_from sockets (i + 1) shards) r.0 r.1)
      (adopt_new shard fd s (close (sockets i).1 table) new)
    ∙ (adopt_all_lem sockets (i + 1) shards (record s { transports = grown })
          (close (sockets i).1 table) (λ q. ground (arith, one q))
          (λ q m.
            rw (← insert_new shard fd s.transports new)
              (ground (arith, one q, absent q, lookup-insert shard q fd s.transports)))
        ∙ simp (append_assoc))
