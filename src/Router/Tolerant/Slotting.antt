-- ===== src/Router/Tolerant/Slotting.antt =====
-- What the loops of `route_batch_tolerant` over one shard's tokens do to the two vectors.
use native.Mathlib.Decide.{ℕ_discrete}
use aether_mo_e.Common.{
  ℕ, ◌<◌, ◌≡◌, refl, ◌∙◌, sym, ap, subst, Bool, true, false, not, ◌&&◌, ltb, List, [], ◌∷◌, get_or,
  set, length, All, arith, Bool-cases, Option-cases, inl, inr, length-set, get_or-set_self,
  get_or-set_other, lookup,
}
use aether_mo_e.RoutedToken.{RoutedToken, RoutedResult, FailureReason, missing_result}
use aether_mo_e.Router.{blank, Slots}
use aether_mo_e.Router.Tolerant.{
  put_slot, token_at, failure, fail_group, annotated, place_answers, fill_missing,
}

abbrev pub is_filled : Slots → ℕ → Bool
is_filled s pos = get_or s.filled pos false

-- Both vectors have `n` elements, and what stands in a filled position belongs there and is good.
pub record IsTidy (Good : ℕ → RoutedResult → Type 0) (n : ℕ) (s : Slots) : Type 0 where
  pub slots : length s.ordered ≡ n
  pub flags : length s.filled ≡ n
  pub placed :
      (pos : ℕ)
      → is_filled s pos ≡ true
      → ((get_or s.ordered pos blank).batch_position ≡ pos) × Good pos (get_or s.ordered pos blank)

-- From `s` to `t` no position is emptied, and those of the indices are filled.
pub record Covers (Good : ℕ → RoutedResult → Type 0) (n : ℕ) (tokens : List RoutedToken)
    (idxs : List ℕ) (s t : Slots) : Type 0 where
  pub tidy : IsTidy Good n t
  pub keeps : (pos : ℕ) → is_filled s pos ≡ true → is_filled t pos ≡ true
  pub covers : All (λ i. is_filled t (token_at tokens i).batch_position ≡ true) idxs

module _ {Good : ℕ → RoutedResult → Type 0} (n : ℕ) (s : Slots) (r : RoutedResult)
    (v : IsTidy Good n s) (h : r.batch_position < n) where
  put_slot-IsTidy : Good r.batch_position r → IsTidy Good n (put_slot s r)
  put_slot-IsTidy good = record {
    slots = length-set s.ordered r.batch_position r ∙ v.slots;
    flags = length-set s.filled r.batch_position true ∙ v.flags;
    placed = λ pos e. elim (ℕ_discrete r.batch_position pos) [
      | yes here ↦
          subst
            (λ p.
              ((get_or (set s.ordered r.batch_position r) p blank).batch_position ≡ p)
              × Good p (get_or (set s.ordered r.batch_position r) p blank))
            here
            (rw (get_or-set_self s.ordered r.batch_position r blank (omega (arith, v.slots)))
              (refl, good))
      | no other ↦
          rw (get_or-set_other s.ordered r.batch_position pos r blank other) (
            v.placed pos
              (ground (arith, get_or-set_other s.filled r.batch_position pos true false)))
    ];
  }

  put_slot-keeps :
      (pos : ℕ)
      → (is_filled s pos ≡ true → is_filled (put_slot s r) pos ≡ true)
        × (is_filled (put_slot s r) r.batch_position ≡ true)
  put_slot-keeps pos = (
    λ e. ground (
      arith,
      v.flags,
      get_or-set_self s.filled pos true false,
      get_or-set_other s.filled r.batch_position pos true false,
    ),
    get_or-set_self s.filled r.batch_position true false (omega (arith, v.flags)),
  )

abbrev pub InRange : ℕ → List RoutedToken → List ℕ → Type 0
InRange n tokens = All (λ i. (token_at tokens i).batch_position < n)

-- A result is kept as it came, but for the expert.
annotated_lem :
    (tokens : List RoutedToken) (es : List ℕ) (dict : List (ℕ × ℕ)) (r : RoutedResult)
    → (e : ℕ) × (annotated tokens es dict r ≡ record r { effective_expert = e })
annotated_lem tokens es dict r = elim (Option-cases (lookup r.batch_position dict)) [
  | inl e ↦ (r.effective_expert, rw (annotated, e) refl)
  | inr (k, e) ↦ (k, rw (annotated, e) refl)
]

module _ {Good : ℕ → RoutedResult → Type 0} (n : ℕ) (tokens : List RoutedToken) where
  -- A write for the first index, then the others.
  Covers-put :
      (i : ℕ) (idxs : List ℕ) (s t : Slots) (r : RoutedResult)
      → IsTidy Good n s
      → r.batch_position ≡ (token_at tokens i).batch_position
      → r.batch_position < n
      → Covers Good n tokens idxs (put_slot s r) t
      → Covers Good n tokens (i ∷ idxs) s t
  Covers-put i idxs s t r v e h c = record {
    tidy = c.tidy;
    keeps = λ pos f. c.keeps pos ((put_slot-keeps n s r v h pos).0 f);
    covers = (
      subst (λ p. is_filled t p ≡ true) e
          (c.keeps r.batch_position ((put_slot-keeps n s r v h 0).1)),
      c.covers,
    );
  }

  -- A write, then something else.
  pub Covers-after :
      (idxs : List ℕ) (s t u : Slots)
      → ((pos : ℕ) → is_filled s pos ≡ true → is_filled t pos ≡ true)
      → Covers Good n tokens idxs t u
      → Covers Good n tokens idxs s u
  Covers-after idxs s t u h c = record {
    tidy = c.tidy;
    keeps = λ pos f. c.keeps pos (h pos f);
    covers = c.covers;
  }

  module _ (effective_expert : List ℕ)
      (fails : (cause : FailureReason) (i : ℕ)
        → Good (token_at tokens i).batch_position (failure tokens effective_expert cause i)) where
    pub fail_group-Covers :
        (cause : FailureReason) (idxs : List ℕ) (s : Slots)
        → IsTidy Good n s
        → InRange n tokens idxs
        → Covers Good n tokens idxs s (fail_group tokens effective_expert cause idxs s)
    unfolding fail_group
    fail_group-Covers cause [] s v h = record { tidy = v; keeps = λ pos f. f; covers = tt }
    fail_group-Covers cause (i ∷ idxs) s v h =
        let r : RoutedResult = failure tokens effective_expert cause i in
        Covers-put i idxs s (fail_group tokens effective_expert cause idxs (put_slot s r)) r v refl
          h.0
          (fail_group-Covers cause idxs (put_slot s r) (put_slot-IsTidy n s r v h.0 (fails cause i))
            h.1)

    pub place_answers-Covers :
        (dict : List (ℕ × ℕ)) (rs : List RoutedResult) (s : Slots)
        → IsTidy Good n s
        → All (λ r. (e : ℕ) → Good r.batch_position (record r { effective_expert = e })) rs
        → Covers Good n tokens [] s (place_answers tokens effective_expert dict rs s)
    unfolding place_answers
    place_answers-Covers dict [] s v g = record { tidy = v; keeps = λ pos f. f; covers = tt }
    place_answers-Covers dict (r ∷ rs) s v g =
        let a : RoutedResult = annotated tokens effective_expert dict r in
        let (e, shape) = annotated_lem tokens effective_expert dict r in
        let same : a.batch_position ≡ r.batch_position =
          ap (λ (b : RoutedResult). b.batch_position) shape in
        let good : Good a.batch_position a =
          subst (λ (b : RoutedResult). Good b.batch_position b) (sym shape) (g.0 e) in
        elim (Bool-cases
          (ltb r.batch_position (length s.filled) && not (is_filled s r.batch_position))) [
            | inl f ↦
                let h : a.batch_position < n = ground (arith, same, v.flags) in
                rw f (
                  Covers-after [] s (put_slot s a)
                    (place_answers tokens effective_expert dict rs (put_slot s a))
                    (λ pos k. (put_slot-keeps n s a v h pos).0 k)
                    (place_answers-Covers dict rs (put_slot s a) (put_slot-IsTidy n s a v h good)
                      g.1))
            | inr f ↦ rw f (place_answers-Covers dict rs s v g.1)
          ]

    pub fill_missing-Covers :
        (shard_id : ℕ) (idxs : List ℕ) (s : Slots)
        → IsTidy Good n s
        → InRange n tokens idxs
        → Covers Good n tokens idxs s (fill_missing tokens effective_expert shard_id idxs s)
    unfolding fill_missing
    fill_missing-Covers shard_id [] s v h = record { tidy = v; keeps = λ pos f. f; covers = tt }
    fill_missing-Covers shard_id (i ∷ idxs) s v h =
        let r : RoutedResult = failure tokens effective_expert (missing_result shard_id) i in
        elim (Bool-cases (is_filled s r.batch_position)) [
          | inl e ↦ rw e (
              there i idxs s (fill_missing tokens effective_expert shard_id idxs s) e
                (fill_missing-Covers shard_id idxs s v h.1))
          | inr e ↦ rw e (
              Covers-put i idxs s
                (fill_missing tokens effective_expert shard_id idxs (put_slot s r)) r v refl h.0
                (fill_missing-Covers shard_id idxs (put_slot s r)
                  (put_slot-IsTidy n s r v h.0 (fails (missing_result shard_id) i)) h.1))
        ]
      where
        there :
            (i : ℕ) (idxs : List ℕ) (s t : Slots)
            → is_filled s (token_at tokens i).batch_position ≡ true
            → Covers Good n tokens idxs s t
            → Covers Good n tokens (i ∷ idxs) s t
        there i idxs s t e c = record {
          tidy = c.tidy;
          keeps = c.keeps;
          covers = (c.keeps (token_at tokens i).batch_position e, c.covers);
        }
