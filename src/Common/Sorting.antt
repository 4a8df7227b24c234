-- ===== src/Common/Sorting.antt =====
-- std::sort by a key, and by the numbers themselves.
use Prim.Native.Nat.{ℕ, zero, suc, ◌≤◌, ◌<◌}
use mathlib.Core.Path.{◌≡◌, refl, ap, ◌∙◌}
use mathlib.Core.List.{List, [], ◌∷◌}
use native.Mathlib.Omega.{arith}
use aether_mo_e.Common.Tests.{ltb, if◌then◌else◌}
use aether_mo_e.Common.Lists.{length, get_or, All}
use aether_mo_e.Common.Counting.{count}

-- Elements with equal keys stay in order; std::sort leaves their order open.
unfoldable pub insert_by : (ℕ → ℕ) → ℕ → List ℕ → List ℕ
insert_by key x [] = x ∷ []
insert_by key x (y ∷ ys) =
    let rest = insert_by key x ys in if ltb (key y) (key x) then y ∷ rest else x ∷ y ∷ ys

unfoldable pub sort_by : (ℕ → ℕ) → List ℕ → List ℕ
unfolding insert_by
sort_by key [] = []
sort_by key (x ∷ xs) = insert_by key x (sort_by key xs)

length-insert_by :
    (key : ℕ → ℕ) (x : ℕ) (xs : List ℕ) → length (insert_by key x xs) ≡ suc (length xs)
unfolding insert_by
length-insert_by key x [] = refl
length-insert_by key x (y ∷ ys) = ground (arith, length-insert_by key x ys)

pub length-sort_by : (key : ℕ → ℕ) (xs : List ℕ) → length (sort_by key xs) ≡ length xs
unfolding sort_by
length-sort_by key [] = refl
length-sort_by key (x ∷ xs) =
    length-insert_by key x (sort_by key xs) ∙ ap suc (length-sort_by key xs)

count-insert_by :
    (key : ℕ → ℕ) (a x : ℕ) (xs : List ℕ) → count a (insert_by key x xs) ≡ count a (x ∷ xs)
unfolding insert_by
count-insert_by key a x [] = refl
count-insert_by key a x (y ∷ ys) = ground (arith, count-insert_by key a x ys)

pub count-sort_by : (key : ℕ → ℕ) (a : ℕ) (xs : List ℕ) → count a (sort_by key xs) ≡ count a xs
unfolding sort_by
count-sort_by key a [] = refl
count-sort_by key a (x ∷ xs) =
    omega (arith, count-insert_by key a x (sort_by key xs), count-sort_by key a xs)

-- Each element's key is at most the next one's.
abbrev pub IsSorted : (ℕ → ℕ) → List ℕ → Type 0
IsSorted key [] = Unit {0}
IsSorted key (x ∷ xs) = All (λ y. key x ≤ key y) xs × IsSorted key xs

All-insert_by :
    (key : ℕ → ℕ) (b x : ℕ) (xs : List ℕ)
    → b ≤ key x
    → All (λ y. b ≤ key y) xs
    → All (λ y. b ≤ key y) (insert_by key x xs)
unfolding insert_by
All-insert_by key b x [] h k = (h, tt)
All-insert_by key b x (y ∷ ys) h k = ground (arith, All-insert_by key b x ys)

All-weaken :
    (key : ℕ → ℕ) (b c : ℕ) (xs : List ℕ)
    → b ≤ c
    → All (λ y. c ≤ key y) xs
    → All (λ y. b ≤ key y) xs
All-weaken key b c [] h k = tt
All-weaken key b c (x ∷ xs) h k = (omega arith, All-weaken key b c xs h k.1)

insert_by-IsSorted :
    (key : ℕ → ℕ) (x : ℕ) (xs : List ℕ) → IsSorted key xs → IsSorted key (insert_by key x xs)
unfolding insert_by
insert_by-IsSorted key x [] h = (tt, tt)
insert_by-IsSorted key x (y ∷ ys) h = ground (
  arith,
  insert_by-IsSorted key x ys,
  All-insert_by key (key y) x ys,
  All-weaken key (key x) (key y) ys,
)

pub sort_by-IsSorted : (key : ℕ → ℕ) (xs : List ℕ) → IsSorted key (sort_by key xs)
unfolding sort_by
sort_by-IsSorted key [] = tt
sort_by-IsSorted key (x ∷ xs) = insert_by-IsSorted key x (sort_by key xs) (sort_by-IsSorted key xs)

pub get_or_mono :
    (key : ℕ → ℕ) (xs : List ℕ) (i j d : ℕ)
    → IsSorted key xs
    → i ≤ j
    → j < length xs
    → key (get_or xs i d) ≤ key (get_or xs j d)
get_or_mono key [] i j d s h k = absurd (omega arith)
get_or_mono key (x ∷ xs) zero zero d s h k = omega arith
get_or_mono key (x ∷ xs) zero (suc j) d s h k = at xs j s.0 (omega arith)
  where
    at :
        (ys : List ℕ) (j : ℕ)
        → All (λ y. key x ≤ key y) ys
        → j < length ys
        → key x ≤ key (get_or ys j d)
    at [] j h k = absurd (omega arith)
    at (y ∷ ys) zero h k = h.0
    at (y ∷ ys) (suc j) h k = at ys j h.1 (omega arith)
get_or_mono key (x ∷ xs) (suc i) zero d s h k = absurd (omega arith)
get_or_mono key (x ∷ xs) (suc i) (suc j) d s h k =
    get_or_mono key xs i j d s.1 (omega arith) (omega arith)
