-- ===== src/Spawn/Descriptors.antt =====
-- Counting descriptors: close of src/orchestration/unix_socket_transport.hpp and what it leaves open.
use native.Mathlib.Decide.{ℕ_discrete}
use aether_mo_e.Common.{
  count, ℕ, ◌+◌, ◌≤◌, ◌≡◌, refl, ◌≢◌, Bool, false, ◌==◌, if◌then◌else◌, List, [], ◌∷◌, arith,
}
use aether_mo_e.Spawn.{File, other, router_end, worker_end, Table, close}

abbrev pub is_file : File → File → Bool
is_file other g = false
is_file (router_end i) other = false
is_file (router_end i) (router_end j) = i == j
is_file (router_end i) (worker_end j) = false
is_file (worker_end i) other = false
is_file (worker_end i) (router_end j) = false
is_file (worker_end i) (worker_end j) = i == j

-- How many descriptors of a process stand for the end `f` of a pair.
abbrev pub holds : File → Table → ℕ
holds f [] = 0
holds f ((k, g) ∷ table) = (if is_file f g then 1 else 0) + holds f table

-- Those among them that are `fd`.
abbrev pub holds_at : ℕ → File → Table → ℕ
holds_at fd f [] = 0
holds_at fd f ((k, g) ∷ table) =
    (if is_file f g then (if k == fd then 1 else 0) else 0) + holds_at fd f table

pub holds-close :
    (fd : ℕ) (f : File) (table : Table)
    → holds f (close fd table) + holds_at fd f table ≡ holds f table
unfolding close
holds-close fd f [] = omega arith
holds-close fd f ((k, g) ∷ table) = ground (arith, holds-close fd f table)

holds_at-close :
    (fd k : ℕ) (f : File) (table : Table)
    → holds_at k f (close fd table) ≡ (if fd == k then 0 else holds_at k f table)
unfolding close
holds_at-close fd k f [] = ground arith
holds_at-close fd k f ((j, g) ∷ table) = ground (arith, holds_at-close fd k f table)

holds_at-two :
    (fd k : ℕ) (f : File) (table : Table)
    → fd ≢ k
    → holds_at fd f table + holds_at k f table ≤ holds f table
holds_at-two fd k f [] h = omega arith
holds_at-two fd k f ((j, g) ∷ table) h = ground (arith, holds_at-two fd k f table)

-- All descriptors for `f` are `fd`.
abbrev pub SitsAt : ℕ → File → Table → Type 0
SitsAt fd f table = holds f table ≡ holds_at fd f table

close-SitsAt :
    (fd k : ℕ) (f : File) (table : Table) → SitsAt k f table → SitsAt k f (close fd table)
close-SitsAt fd k f table h =
    ground (arith, holds-close fd f table, holds_at-close fd k f table, holds_at-two fd k f table)

close_self : (fd : ℕ) (f : File) (table : Table) → SitsAt fd f table → holds f (close fd table) ≡ 0
close_self fd f table h = omega (arith, holds-close fd f table)

holds-close-le : (fd : ℕ) (f : File) (table : Table) → holds f (close fd table) ≤ holds f table
holds-close-le fd f table = omega (arith, holds-close fd f table)

-- Closing a list of descriptors, the first one first.
abbrev pub close_all : List ℕ → Table → Table
close_all [] table = table
close_all (fd ∷ fds) table = close_all fds (close fd table)

pub close_all-holds_le :
    (fds : List ℕ) (f : File) (table : Table) → holds f (close_all fds table) ≤ holds f table
close_all-holds_le [] f table = omega arith
close_all-holds_le (fd ∷ fds) f table =
    omega (arith, close_all-holds_le fds f (close fd table), holds-close-le fd f table)

pub close_all-SitsAt :
    (fds : List ℕ) (k : ℕ) (f : File) (table : Table)
    → SitsAt k f table
    → SitsAt k f (close_all fds table)
close_all-SitsAt [] k f table h = h
close_all-SitsAt (fd ∷ fds) k f table h =
    close_all-SitsAt fds k f (close fd table) (close-SitsAt fd k f table h)

-- What is in the list is closed.
pub close_all-closes :
    (fds : List ℕ) (k : ℕ) (f : File) (table : Table)
    → SitsAt k f table
    → 1 ≤ count k fds
    → holds f (close_all fds table) ≡ 0
close_all-closes [] k f table h m = absurd (omega arith)
close_all-closes (fd ∷ fds) k f table h m = elim (ℕ_discrete k fd) [
  | yes e ↦
      omega (arith, close_all-holds_le fds f (close fd table), holds-close fd f table, (rw e at h))
  | no ne ↦ close_all-closes fds k f (close fd table) (close-SitsAt fd k f table h) (ground arith)
]

-- What is not in the list stays open.
pub close_all-spares :
    (fds : List ℕ) (k : ℕ) (f : File) (table : Table)
    → count k fds ≡ 0
    → holds_at k f (close_all fds table) ≡ holds_at k f table
close_all-spares [] k f table h = refl
close_all-spares (fd ∷ fds) k f table h =
    ground (arith, close_all-spares fds k f (close fd table), holds_at-close fd k f table)
