-- ===== src/Spawn/Closing.antt =====
-- What the processes of spawn_workers of process_spawn.hpp close, as lists.
use aether_mo_e.Common.{
  ℕ, ◌+◌, ◌≤◌, ◌≡◌, ◌≢◌, refl, true, ◌==◌, if◌then◌else◌, List, [], ◌∷◌, length, arith, count, map,
}
use aether_mo_e.Spawn.{Table, close, Pair, destroy_transports, close_others}
use aether_mo_e.Spawn.Descriptors.{close_all}
use aether_mo_e.Spawn.Pairs.{fds, pairs_from, in_range}

-- The descriptors that child `i` closes.
abbrev pub others : ℕ → ℕ → List Pair → List ℕ
others i j [] = []
others i j (p ∷ pairs) =
    p.router_fd ∷ (if j == i then others i (j + 1) pairs else p.worker_fd ∷ others i (j + 1) pairs)

pub close_others_lem :
    (i j : ℕ) (pairs : List Pair) (table : Table)
    → close_others i j pairs table ≡ close_all (others i j pairs) table
unfolding close_others
close_others_lem i j [] table = refl
close_others_lem i j (p ∷ pairs) table = ground (
  arith,
  close_others_lem i (j + 1) pairs (close p.router_fd table),
  close_others_lem i (j + 1) pairs (close p.worker_fd (close p.router_fd table)),
)

pub destroy_transports_lem :
    (transports : List (ℕ × ℕ)) (table : Table)
    → destroy_transports transports table ≡ close_all (map (λ t. t.1) transports) table
unfolding destroy_transports
destroy_transports_lem [] table = refl
destroy_transports_lem ((shard, fd) ∷ transports) table =
    destroy_transports_lem transports (close fd table)

module _ (sockets : ℕ → ℕ × ℕ) where
  abbrev pub workers_from : ℕ → List ℕ → List ℕ
  workers_from i [] = []
  workers_from i (shard ∷ shards) = (sockets i).1 ∷ workers_from (i + 1) shards

  abbrev pub routers_from : ℕ → List ℕ → List ℕ
  routers_from i [] = []
  routers_from i (shard ∷ shards) = (sockets i).0 ∷ routers_from (i + 1) shards

  pub count-others :
      (fd i j : ℕ) (shards : List ℕ)
      → count fd (others i j (pairs_from sockets j shards))
          + (if in_range i j (length shards) then (if fd == (sockets i).1 then 1 else 0) else 0)
        ≡ count fd (fds (pairs_from sockets j shards))
  count-others fd i j [] = ground arith
  count-others fd i j (shard ∷ shards) = ground (arith, count-others fd i (j + 1) shards)

  pub count-routers :
      (fd i : ℕ) (shards : List ℕ)
      → count fd (routers_from i shards) + count fd (workers_from i shards)
        ≡ count fd (fds (pairs_from sockets i shards))
  count-routers fd i [] = omega arith
  count-routers fd i (shard ∷ shards) = omega (arith, count-routers fd (i + 1) shards)

  pub in_range-routers :
      (k i : ℕ) (shards : List ℕ)
      → in_range k i (length shards) ≡ true
      → (1 ≤ count (sockets k).0 (routers_from i shards))
        × (1 ≤ count (sockets k).1 (workers_from i shards))
  in_range-routers k i [] h = absurd (ground arith)
  in_range-routers k i (shard ∷ shards) h = ground (arith, in_range-routers k (i + 1) shards)

  pub in_range-others :
      (k i j : ℕ) (shards : List ℕ)
      → in_range k j (length shards) ≡ true
      → (1 ≤ count (sockets k).0 (others i j (pairs_from sockets j shards)))
        × (k ≢ i → 1 ≤ count (sockets k).1 (others i j (pairs_from sockets j shards)))
  in_range-others k i j [] h = absurd (ground arith)
  in_range-others k i j (shard ∷ shards) h = (
    ground (arith, in_range-others k i (j + 1) shards),
    λ ne. ground (arith, in_range-others k i (j + 1) shards),
  )
