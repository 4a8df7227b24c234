-- ===== src/PageTable/Fragmentation.antt =====
-- The sums behind `internal_fragmentation_ratio` of page_table.hpp.
use aether_mo_e.Common.{ℕ, ◌+◌, ◌*◌, ◌≤◌, List, [], ◌∷◌, length}
use aether_mo_e.PageTable.{Tables, count_of}

-- An entry whose blocks have room for its token count.
abbrev pub IsRoomy : ℕ → List (ℕ × ℕ) → ℕ × List ℕ → Type 0
IsRoomy bs counts (k, owned) = count_of counts k ≤ length owned * bs

-- The tokens of the entries, as a number without bound.
pub tokens_in : List (ℕ × ℕ) → Tables → ℕ
tokens_in counts [] = 0
tokens_in counts ((k, owned) ∷ t) = count_of counts k + tokens_in counts t
