-- ===== src/Router/Reassembly.antt =====
-- `Router::reassemble` of router.hpp gives back a batch exactly when each position has one result.
use native.Mathlib.Decide.{dec_lt, ℕ_discrete}
use aether_mo_e.Common.{
  ◌⊎◌, lt→ltb, subst, ℕ, zero, suc, ◌+◌, ◌≤◌, ◌<◌, ◌≡◌, ◌≢◌, refl, ◌∙◌, ap, Bool, true, false, List,
  [], ◌∷◌, map, arith, ltb, ◌==◌, if◌then◌else◌, inl, inr, length, length-set, length-replicate,
  get_or, set, replicate, get_or-set_self, get_or-set_other, get_or_beyond, get_or-replicate, count,
  Result, ok, err, ◌>>=◌, Returns, >>=-Returns,
}
use aether_mo_e.RoutedToken.{RoutedResult}
use aether_mo_e.Router.{blank, Slots, place_all, check_filled, reassemble}

abbrev pub positions : List RoutedResult → List ℕ
positions = map (λ r. r.batch_position)

-- The result for position `i`, or `d` if there is none.
abbrev pub result_for : ℕ → List RoutedResult → RoutedResult → RoutedResult
result_for i [] d = d
result_for i (r ∷ rs) d = result_for i rs (if r.batch_position == i then r else d)

-- Each position below `n` has one result, and no other position has one.
abbrev pub IsComplete : ℕ → List RoutedResult → Type 0
IsComplete n rs = (i : ℕ) → count i (positions rs) ≡ (if ltb i n then 1 else 0)

abbrev marked : Slots → ℕ → ℕ
marked s i = if get_or s.filled i false then 1 else 0

record IsSized (n : ℕ) (s : Slots) : Type 0 where
  slots : length s.ordered ≡ n
  flags : length s.filled ≡ n

abbrev fill : Slots → RoutedResult → Slots
fill s r = record {
  ordered = set s.ordered r.batch_position r;
  filled = set s.filled r.batch_position true;
}

fill-IsSized : (n : ℕ) (s : Slots) (r : RoutedResult) → IsSized n s → IsSized n (fill s r)
fill-IsSized n s r v =
    omega
      (arith, length-set s.ordered r.batch_position r, length-set s.filled r.batch_position true)

marked-fill :
    (n : ℕ) (s : Slots) (r : RoutedResult) (i : ℕ)
    → IsSized n s
    → r.batch_position < n
    → get_or s.filled r.batch_position false ≡ false
    → marked (fill s r) i ≡ marked s i + (if i == r.batch_position then 1 else 0)
marked-fill n s r i v lt free = ground (
  arith,
  get_or-set_self s.filled i true false,
  get_or-set_other s.filled r.batch_position i true false,
)

-- What the first loop leaves, if it does not throw.
record Placed (n : ℕ) (s : Slots) (rs : List RoutedResult) (t : Slots) : Type 0 where
  sized : IsSized n t
  marks : (i : ℕ) → marked t i ≡ marked s i + count i (positions rs)
  values : (i : ℕ) → get_or t.ordered i blank ≡ result_for i rs (get_or s.ordered i blank)

place_all-cons :
    (n : ℕ) (s : Slots) (r : RoutedResult) (rs : List RoutedResult) {t : Slots}
    → place_all n s (r ∷ rs) ≡ ok t
    → (r.batch_position < n)
      × (get_or s.filled r.batch_position false ≡ false)
      × (place_all n (fill s r) rs ≡ ok t)
unfolding place_all
place_all-cons n s r rs e = ground arith

place_all-Placed :
    (n : ℕ) (s : Slots) (rs : List RoutedResult) {t : Slots}
    → IsSized n s
    → place_all n s rs ≡ ok t
    → Placed n s rs t
unfolding place_all
place_all-Placed n s [] {t} v e =
    let same : s ≡ t = ground arith in
    subst (Placed n s []) same (record { sized = v; marks = λ i. omega arith; values = λ i. refl })
place_all-Placed n s (r ∷ rs) v e =
    let (lt, free, more) = place_all-cons n s r rs e in
    let rest = place_all-Placed n (fill s r) rs (fill-IsSized n s r v) more in
    record {
      sized = rest.sized;
      marks = λ i. omega (arith, rest.marks i, marked-fill n s r i v lt free);
      values = λ i. rest.values i ∙ ap (λ d. result_for i rs d) (slot i lt);
    }
  where
    slot :
        (i : ℕ)
        → r.batch_position < n
        → get_or (set s.ordered r.batch_position r) i blank
          ≡ (if r.batch_position == i then r else get_or s.ordered i blank)
    slot i lt = ground (
      arith,
      v.slots,
      get_or-set_self s.ordered i r blank,
      get_or-set_other s.ordered r.batch_position i r blank,
    )

-- The second loop passes exactly if all flags are set.
check_filled-eq_ok :
    (j : ℕ) (fs : List Bool) (i : ℕ)
    → check_filled j fs ≡ ok tt
    → i < length fs
    → get_or fs i false ≡ true
unfolding check_filled
check_filled-eq_ok j [] i e h = absurd (omega arith)
check_filled-eq_ok j (f ∷ fs) zero e h = ground arith
check_filled-eq_ok j (f ∷ fs) (suc i) e h = ground (arith, check_filled-eq_ok (j + 1) fs i)

check_filled_all :
    (j : ℕ) (fs : List Bool)
    → ((i : ℕ) → i < length fs → get_or fs i false ≡ true)
    → check_filled j fs ≡ ok tt
unfolding check_filled
check_filled_all j [] h = refl
check_filled_all j (f ∷ fs) h =
    rw (h 0 (omega arith)) (check_filled_all (j + 1) fs (λ i p. h (suc i) (omega arith)))

-- The first loop passes if no position is repeated or out of range.
place_all_total :
    (n : ℕ) (s : Slots) (rs : List RoutedResult)
    → IsSized n s
    → ((i : ℕ) → marked s i + count i (positions rs) ≤ (if ltb i n then 1 else 0))
    → Returns (place_all n s rs) (λ t. place_all n s rs ≡ ok t)
unfolding place_all
place_all_total n s [] v h = refl
place_all_total n s (r ∷ rs) v h =
    let lt : r.batch_position < n = ground (arith, h r.batch_position) in
    let free : get_or s.filled r.batch_position false ≡ false =
      ground (arith, h r.batch_position) in
    rw (lt→ltb r.batch_position n lt, free)
      (place_all_total n (fill s r) rs (fill-IsSized n s r v)
        (λ i. omega (arith, h i, marked-fill n s r i v lt free)))

abbrev empty_slots : ℕ → Slots
empty_slots n = record { ordered = replicate n blank; filled = replicate n false }

empty-IsSized : (n : ℕ) → IsSized n (empty_slots n)
empty-IsSized n = record { slots = length-replicate n blank; flags = length-replicate n false }

marked_empty : (n i : ℕ) → marked (empty_slots n) i ≡ 0
marked_empty n i = rw (get_or-replicate n i false)

result_for-position :
    (i : ℕ) (rs : List RoutedResult) (d : RoutedResult)
    → (0 < count i (positions rs)) ⊎ (d.batch_position ≡ i)
    → (result_for i rs d).batch_position ≡ i
result_for-position i [] d (inl h) = absurd (omega arith)
result_for-position i [] d (inr e) = e
result_for-position i (r ∷ rs) d h = elim (ℕ_discrete r.batch_position i) [
  | yes e ↦ ground (arith, result_for-position i rs r (inr e))
  | no ne ↦ ground (arith, result_for-position i rs d (other ne h))
]
  where
    other :
        r.batch_position ≢ i
        → (0 < count i (positions (r ∷ rs))) ⊎ (d.batch_position ≡ i)
        → (0 < count i (positions rs)) ⊎ (d.batch_position ≡ i)
    other ne h = ground (arith, h)

-- If each position of the batch has exactly one result, in whatever order the results come, then
-- reassemble does not throw: it returns as many results as the batch has tokens, and at each
-- position the result for that position.
pub reassemble_complete :
    (n : ℕ) (rs : List RoutedResult) (i : ℕ)
    → IsComplete n rs
    → i < n
    → Returns (reassemble n rs) (λ out.
      (length out ≡ n)
      × (get_or out i blank ≡ result_for i rs blank)
      × ((get_or out i blank).batch_position ≡ i))
unfolding reassemble
reassemble_complete n rs i whole lt =
    >>=-Returns (place_all n (empty_slots n) rs) _ (λ t. place_all n (empty_slots n) rs ≡ ok t) _
      (place_all_total n (empty_slots n) rs (empty-IsSized n)
        (λ j. omega (arith, whole j, marked_empty n j)))
      λ t e.
        let p = place_all-Placed n (empty_slots n) rs (empty-IsSized n) e in
        let here : get_or t.ordered i blank ≡ result_for i rs blank =
          p.values i ∙ ap (λ d. result_for i rs d) (get_or-replicate n i blank) in
        rw
          (check_filled_all 0 t.filled
            (λ j h. ground (arith, p.marks j, marked_empty n j, whole j, p.sized.flags)))
          (
            p.sized.slots,
            here,
            ap (λ (r : RoutedResult). r.batch_position) here
                ∙ result_for-position i rs blank (inl (ground (arith, whole i))),
          )

passed :
    (m : Result (Unit {0})) (a : List RoutedResult) {b : List RoutedResult}
    → (m >>= λ u. ok a) ≡ ok b
    → m ≡ ok tt
passed (err e) a h = cc
passed (ok u) a h = refl

placed-IsComplete :
    (n : ℕ) (rs : List RoutedResult) (placed : Result Slots) {out : List RoutedResult}
    → place_all n (empty_slots n) rs ≡ placed
    → (placed >>= λ s. check_filled 0 s.filled >>= λ u. ok s.ordered) ≡ ok out
    → IsComplete n rs
placed-IsComplete n rs (err x) e h i = cc
placed-IsComplete n rs (ok t) e h i =
    let p = place_all-Placed n (empty_slots n) rs (empty-IsSized n) e in
    let all_set = check_filled-eq_ok 0 t.filled i (passed (check_filled 0 t.filled) t.ordered h) in
    elim (dec_lt i n) [
      | yes lt ↦ ground (arith, p.marks i, marked_empty n i, all_set, p.sized.flags)
      | no ge ↦
          ground (arith, p.marks i, marked_empty n i, get_or_beyond t.filled i false, p.sized.flags)
    ]

-- Conversely, what reassemble accepts has exactly one result for each position of the batch and no
-- other: a missing, repeated or out-of-range position always throws.
pub reassemble_sound :
    (n : ℕ) (rs : List RoutedResult) {out : List RoutedResult}
    → reassemble n rs ≡ ok out
    → IsComplete n rs
unfolding reassemble
reassemble_sound n rs e = placed-IsComplete n rs (place_all n (empty_slots n) rs) refl e
