-- ===== src/Spawn/Pairs.antt =====
-- Phase 1 of spawn_workers when each socketpair succeeds: the pairs, and the descriptors for them.
use aether_mo_e.Common.{
  ℕ, ◌+◌, ◌≡◌, refl, Bool, leb, ltb, ◌&&◌, ◌==◌, if◌then◌else◌, List, [], ◌∷◌, length, Option, some,
  ok, arith,
}
use aether_mo_e.Spawn.{router_end, worker_end, Table, Pair, Kernel, create_pairs}
use aether_mo_e.Spawn.Descriptors.{holds, holds_at}

-- A kernel whose socketpair calls all succeed.
abbrev pub able : (ℕ → ℕ × ℕ) → (ℕ → Option ℕ) → Kernel
able sockets fork = record { socketpair = λ k. some (sockets k); fork = fork }

abbrev pub fds : List Pair → List ℕ
fds [] = []
fds (p ∷ pairs) = p.router_fd ∷ p.worker_fd ∷ fds pairs

abbrev pub in_range : ℕ → ℕ → ℕ → Bool
in_range k i n = leb i k && ltb k (i + n)

module _ (sockets : ℕ → ℕ × ℕ) where
  abbrev pub pair_at : ℕ → Pair
  pair_at k = record { router_fd = (sockets k).0; worker_fd = (sockets k).1 }

  abbrev pub pairs_from : ℕ → List ℕ → List Pair
  pairs_from i [] = []
  pairs_from i (shard ∷ shards) = pair_at i ∷ pairs_from (i + 1) shards

  abbrev pub opened_from : ℕ → List ℕ → Table → Table
  opened_from i [] table = table
  opened_from i (shard ∷ shards) table =
      opened_from (i + 1) shards
        (((sockets i).0, router_end i) ∷ ((sockets i).1, worker_end i) ∷ table)

  pub create_pairs_lem :
      (fork : ℕ → Option ℕ) (i : ℕ) (shards : List ℕ) (table : Table)
      → create_pairs (able sockets fork) i shards table
        ≡ (ok (pairs_from i shards), opened_from i shards table)
  unfolding create_pairs
  create_pairs_lem fork i [] table = refl
  create_pairs_lem fork i (shard ∷ shards) table = rw (
      create_pairs_lem fork (i + 1) shards
        (((sockets i).0, router_end i) ∷ ((sockets i).1, worker_end i) ∷ table))

  -- Each pair adds one descriptor for each of its ends.
  pub opened_from-holds :
      (k fd i : ℕ) (shards : List ℕ) (table : Table)
      → let after = opened_from i shards table in
        let now = in_range k i (length shards) in
        (holds (router_end k) after ≡ holds (router_end k) table + (if now then 1 else 0))
        × (holds (worker_end k) after ≡ holds (worker_end k) table + (if now then 1 else 0))
        × (holds_at fd (router_end k) after
            ≡ holds_at fd (router_end k) table
              + (if now then (if (sockets k).0 == fd then 1 else 0) else 0))
        × (holds_at fd (worker_end k) after
            ≡ holds_at fd (worker_end k) table
              + (if now then (if (sockets k).1 == fd then 1 else 0) else 0))
  opened_from-holds k fd i [] table = ground arith
  opened_from-holds k fd i (shard ∷ shards) table = ground (
    arith,
    opened_from-holds k fd (i + 1) shards
        (((sockets i).0, router_end i) ∷ ((sockets i).1, worker_end i) ∷ table),
  )
