-- ===== src/Telemetry/Stats.antt =====
-- `compute_stats` of telemetry.hpp: percentiles by nearest rank.
use native.Mathlib.Nat.{mul-le-mul_right}
use aether_mo_e.Common.{
  ℕ, zero, suc, ◌+◌, ◌-◌, ◌*◌, ◌/◌, ◌≤◌, ◌<◌, ◌≡◌, refl, List, [], ◌∷◌, false, length, get_or, All,
  arith, ltb, leb, ◌==◌, if◌then◌else◌, count, sort_by, insert_by, length-sort_by, count-sort_by,
  IsSorted, sort_by-IsSorted, get_or_mono,
}
use aether_mo_e.Telemetry.{sum, rank, pct, compute_stats}

abbrev same : ℕ → ℕ
same v = v

-- How many of the numbers are at most `v`, and how many are below it.
abbrev pub at_most : ℕ → List ℕ → ℕ
at_most v [] = 0
at_most v (x ∷ xs) = (if leb x v then 1 else 0) + at_most v xs

abbrev pub below : ℕ → List ℕ → ℕ
below v [] = 0
below v (x ∷ xs) = (if ltb x v then 1 else 0) + below v xs

at_most-sort_by : (v : ℕ) (xs : List ℕ) → at_most v (sort_by same xs) ≡ at_most v xs
unfolding sort_by
at_most-sort_by v [] = refl
at_most-sort_by v (x ∷ xs) = omega (arith, inserted (sort_by same xs), at_most-sort_by v xs)
  where
    inserted :
        (ys : List ℕ) → at_most v (insert_by same x ys) ≡ (if leb x v then 1 else 0) + at_most v ys
    inserted [] = refl
    inserted (y ∷ ys) = ground (arith, inserted ys)

below-sort_by : (v : ℕ) (xs : List ℕ) → below v (sort_by same xs) ≡ below v xs
unfolding sort_by
below-sort_by v [] = refl
below-sort_by v (x ∷ xs) = omega (arith, inserted (sort_by same xs), below-sort_by v xs)
  where
    inserted :
        (ys : List ℕ) → below v (insert_by same x ys) ≡ (if ltb x v then 1 else 0) + below v ys
    inserted [] = refl
    inserted (y ∷ ys) = ground (arith, inserted ys)

-- In a sorted list the element at index `i` has `i` others before it.
rank-le-at_most :
    (xs : List ℕ) (i : ℕ) → IsSorted same xs → i < length xs → suc i ≤ at_most (get_or xs i 0) xs
rank-le-at_most [] i s h = absurd (omega arith)
rank-le-at_most (x ∷ xs) zero s h = ground arith
rank-le-at_most (x ∷ xs) (suc i) s h =
    ground (arith, rank-le-at_most xs i, get_or_mono same (x ∷ xs) 0 (suc i) 0 s)

none_below : (x : ℕ) (xs : List ℕ) → All (λ y. x ≤ y) xs → below x xs ≡ 0
none_below x [] h = refl
none_below x (y ∷ ys) h = ground (arith, none_below x ys)

below-le-rank :
    (xs : List ℕ) (i : ℕ) → IsSorted same xs → i < length xs → below (get_or xs i 0) xs ≤ i
below-le-rank [] i s h = absurd (omega arith)
below-le-rank (x ∷ xs) zero s h = ground (arith, none_below x xs)
below-le-rank (x ∷ xs) (suc i) s h =
    ground (arith, below-le-rank xs i, get_or_mono same (x ∷ xs) 0 (suc i) 0 s)

count-get_or : (xs : List ℕ) (i : ℕ) → i < length xs → 0 < count (get_or xs i 0) xs
count-get_or [] i h = absurd (omega arith)
count-get_or (x ∷ xs) zero h = ground arith
count-get_or (x ∷ xs) (suc i) h = ground (arith, count-get_or xs i)

-- The percentile by nearest rank: one of the samples; at least the percentage of the samples is
-- at most it, and less than the percentage is below it.
abbrev pub IsPercentile : ℕ → List ℕ → ℕ → Type 0
IsPercentile percent xs v =
    (0 < count v xs)
    × (percent * length xs ≤ 100 * at_most v xs)
    × (100 * below v xs < percent * length xs)

-- The rank as a function of `percent * n`.
abbrev clamped : ℕ → ℕ → ℕ
clamped q n =
    if ltb n (if (q + 99) / 100 == 0 then 1 else (q + 99) / 100)
    then n
    else (if (q + 99) / 100 == 0 then 1 else (q + 99) / 100)

rank_bounds :
    (q n r : ℕ)
    → 0 < q
    → q ≤ 100 * n
    → r ≡ clamped q n
    → (0 < r) × (r ≤ n) × (q ≤ 100 * r) × (100 * (r - 1) < q)
rank_bounds q n r h k e = ground arith

pct-IsPercentile :
    (percent : ℕ) (xs : List ℕ)
    → 0 < percent
    → percent ≤ 100
    → 0 < length xs
    → IsPercentile percent xs (pct percent (sort_by same xs))
pct-IsPercentile percent xs p q h =
    let s : List ℕ = sort_by same xs in
    let n : ℕ = length s in
    let len : n ≡ length xs = length-sort_by same xs in
    let v : ℕ = pct percent s in
    let pos : 0 < percent * n = grind arith in
    let (some, low, enough, few) =
      rank_bounds (percent * n) n (rank percent n) pos (mul-le-mul_right n q) refl in
    let at : rank percent n - 1 < n = omega arith in
    let up = rank-le-at_most s (rank percent n - 1) (sort_by-IsSorted same xs) at in
    let down = below-le-rank s (rank percent n - 1) (sort_by-IsSorted same xs) at in
    let there = count-get_or s (rank percent n - 1) at in
    rw (← len) (
      omega (arith, there, count-sort_by same v xs),
      omega (arith, up, enough, some, at_most-sort_by v xs),
      omega (arith, down, few, below-sort_by v xs),
    )

sum-sort_by : (xs : List ℕ) → sum (sort_by same xs) ≡ sum xs
unfolding sum sort_by
sum-sort_by [] = refl
sum-sort_by (x ∷ xs) = omega (arith, inserted (sort_by same xs), sum-sort_by xs)
  where
    inserted : (ys : List ℕ) → sum (insert_by same x ys) ≡ x + sum ys
    inserted [] = refl
    inserted (y ∷ ys) = ground (arith, inserted ys)

at_most-le-length : (v : ℕ) (xs : List ℕ) → at_most v xs ≤ length xs
at_most-le-length v [] = omega arith
at_most-le-length v (x ∷ xs) = ground (arith, at_most-le-length v xs)

rank_mono :
    (a b n : ℕ)
    → a ≤ b
    → 0 < n
    → (clamped a n ≤ clamped b n) × (0 < clamped a n) × (clamped b n ≤ n)
rank_mono a b n h k = ground arith

-- A higher percentage has a higher rank.
pct_mono :
    (p q : ℕ) (s : List ℕ)
    → p ≤ q
    → q ≤ 100
    → 0 < length s
    → IsSorted same s
    → (pct p s ≤ pct q s) × (pct q s ≤ get_or s (length s - 1) 0)
pct_mono p q s h k l sorted =
    let n : ℕ = length s in
    let (low, positive, high) = rank_mono (p * n) (q * n) n (mul-le-mul_right n h) l in
    (
      get_or_mono same s (rank p n - 1) (rank q n - 1) 0 sorted (omega arith) (omega arith),
      get_or_mono same s (rank q n - 1) (n - 1) 0 sorted (omega arith) (omega arith),
    )

-- The summary of a vector that is not empty: each percentile is one by nearest rank, the
-- percentiles ascend to the maximum, which is a sample and the largest, and the count and the sum
-- are those of the samples.
pub compute_stats_lem :
    (xs : List ℕ)
    → 0 < length xs
    → IsPercentile 50 xs (compute_stats xs).p50_ns
      × IsPercentile 95 xs (compute_stats xs).p95_ns
      × IsPercentile 99 xs (compute_stats xs).p99_ns
      × ((compute_stats xs).p50_ns ≤ (compute_stats xs).p95_ns)
      × ((compute_stats xs).p95_ns ≤ (compute_stats xs).p99_ns)
      × ((compute_stats xs).p99_ns ≤ (compute_stats xs).max_ns)
      × (0 < count (compute_stats xs).max_ns xs)
      × (at_most (compute_stats xs).max_ns xs ≡ length xs)
      × ((compute_stats xs).count ≡ length xs)
      × ((compute_stats xs).sum_ns ≡ sum xs)
unfolding compute_stats
compute_stats_lem xs h =
    let s : List ℕ = sort_by same xs in
    let len : length s ≡ length xs = length-sort_by same xs in
    let sorted : IsSorted same s = sort_by-IsSorted same xs in
    let last : length s - 1 < length s = omega arith in
    let top : ℕ = get_or s (length s - 1) 0 in
    let some : (length xs == 0) ≡ false = ground arith in
    rw (some) (
      pct-IsPercentile 50 xs (omega arith) (omega arith) h,
      pct-IsPercentile 95 xs (omega arith) (omega arith) h,
      pct-IsPercentile 99 xs (omega arith) (omega arith) h,
      (pct_mono 50 95 s (omega arith) (omega arith) (omega arith) sorted).0,
      (pct_mono 95 99 s (omega arith) (omega arith) (omega arith) sorted).0,
      (pct_mono 99 99 s (omega arith) (omega arith) (omega arith) sorted).1,
      omega (arith, count-get_or s (length s - 1) last, count-sort_by same top xs),
      omega (
        arith,
        rank-le-at_most s (length s - 1) sorted last,
        at_most-sort_by top xs,
        at_most-le-length top xs,
      ),
      refl,
      sum-sort_by xs,
    )

pub compute_stats-count : (xs : List ℕ) → (compute_stats xs).count ≡ length xs
unfolding compute_stats
compute_stats-count [] = refl
compute_stats-count (x ∷ xs) = ground arith
