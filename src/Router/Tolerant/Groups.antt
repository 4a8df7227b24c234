-- ===== src/Router/Tolerant/Groups.antt =====
-- How `route_batch_tolerant` groups the indices of a batch by shard.
use native.Mathlib.Decide.{ℕ_discrete}
use aether_mo_e.Common.{
  ℕ, ◌+◌, ◌≤◌, ◌<◌, ◌≡◌, refl, subst, ◌==◌, List, [], ◌∷◌, ◌++◌, length, All, arith, Bool-cases,
  inl, inr, Result, ok, err, Returns, ◌↔◌,
}
use aether_mo_e.Router.Assignment.{push_at, shard_for_expert}
use aether_mo_e.Router.Tolerant.{index_by_shard}

-- A property of all values in a map of lists.
abbrev pub AllGroups : (ℕ → Type 0) → List (ℕ × List ℕ) → Type 0
AllGroups P = All (λ g. All P g.1)

All-last : (P : ℕ → Type 0) (xs : List ℕ) (x : ℕ) → (All P (xs ++ (x ∷ []))) ↔ (All P xs × P x)
All-last P [] x = (λ h. (tt, h.0), λ h. (h.1, tt))
All-last P (y ∷ ys) x = (
  λ h. ((h.0, ((All-last P ys x).0 h.1).0), ((All-last P ys x).0 h.1).1),
  λ h. (h.0.0, (All-last P ys x).1 (h.0.1, h.1)),
)

AllGroups-push_at :
    (P : ℕ → Type 0) (k i : ℕ) (groups : List (ℕ × List ℕ))
    → AllGroups P (push_at k i groups) ↔ (AllGroups P groups × P i)
unfolding push_at
AllGroups-push_at P k i [] = (λ h. (tt, h.0.0), λ h. ((h.1, tt), tt))
AllGroups-push_at P k i ((j, is) ∷ groups) = elim (Bool-cases (j == k)) [
  | inl e ↦ rw e (
    λ h. let q = (All-last P is i).0 h.0 in ((q.0, h.1), q.1),
    λ h. ((All-last P is i).1 (h.0.0, h.1), h.0.1),
  )
  | inr e ↦ rw e (
    λ h. let q = (AllGroups-push_at P k i groups).0 h.1 in ((h.0, q.0), q.1),
    λ h. (h.0.0, (AllGroups-push_at P k i groups).1 (h.0.1, h.1)),
  )
]

-- If the rest of a chain is reached, it is reached with some value.
reached {ℓ} :
    {B : Type 0} {Q : Type ℓ} (m : Result ℕ) (f : ℕ → Result B) {b : B}
    → (elim m [ err x ↦ err x | ok k ↦ f k ]) ≡ ok b
    → ((k : ℕ) → f k ≡ ok b → Q)
    → Q
reached (err x) f e h = cc
reached (ok k) f e h = h k e

-- The groups hold the indices from `i` on, and what they held before.
pub index_by_shard-AllGroups :
    (P : ℕ → Type 0) (experts : List (ℕ × ℕ)) (i : ℕ) (es : List ℕ) (before : List (ℕ × List ℕ))
    {after : List (ℕ × List ℕ)}
    → index_by_shard experts i es before ≡ ok after
    → AllGroups P after ↔ (AllGroups P before × ((j : ℕ) → i ≤ j → j < i + length es → P j))
unfolding index_by_shard
index_by_shard-AllGroups P experts i [] before {after} e =
    let same : before ≡ after = ground arith in
    subst (λ g. AllGroups P g ↔ (AllGroups P before × ((j : ℕ) → i ≤ j → j < i + 0 → P j))) same
      (λ h. (h, λ j a b. absurd (omega arith)), λ h. h.0)
index_by_shard-AllGroups P experts i (x ∷ es) before {after} e =
    reached (shard_for_expert experts x)
      (λ k. index_by_shard experts (i + 1) es (push_at k i before)) e
      (λ k f. step k (index_by_shard-AllGroups P experts (i + 1) es (push_at k i before) f))
  where
    step :
        (k : ℕ)
        → (AllGroups P after ↔ (
            AllGroups P (push_at k i before) × ((j : ℕ) → i + 1 ≤ j → j < i + 1 + length es → P j)))
        → AllGroups P after
          ↔ (AllGroups P before × ((j : ℕ) → i ≤ j → j < i + length (x ∷ es) → P j))
    step k h = (
      λ all.
          let (groups, rest) = h.0 all in
          let (old, here) = (AllGroups-push_at P k i before).0 groups in
          (
            old,
            λ j a b. elim (ℕ_discrete i j) [
              | yes same ↦ subst P same here
              | no ne ↦ rest j (omega arith) (omega arith)
            ],
          ),
      λ p. h.1 (
        (AllGroups-push_at P k i before).1 (p.0, p.1 i (omega arith) (omega arith)),
        λ j a b. p.1 j (omega arith) (omega arith),
      ),
    )

-- The experts that a shard is known for.
abbrev pub IsMapped : List (ℕ × ℕ) → ℕ → Type 0
IsMapped experts e = Returns (shard_for_expert experts e) (λ shard. Unit)

pub index_by_shard_total :
    (experts : List (ℕ × ℕ)) (i : ℕ) (es : List ℕ) (before : List (ℕ × List ℕ))
    → All (IsMapped experts) es
    → (after : List (ℕ × List ℕ)) × (index_by_shard experts i es before ≡ ok after)
unfolding index_by_shard
index_by_shard_total experts i [] before h = (before, refl)
index_by_shard_total experts i (e ∷ es) before h =
    go (shard_for_expert experts e) h.0
      (λ k. index_by_shard_total experts (i + 1) es (push_at k i before) h.1)
  where
    go :
        (m : Result ℕ)
        → Returns m (λ shard. Unit {0})
        → ((k : ℕ)
            → (after : List (ℕ × List ℕ)) × (index_by_shard experts (i + 1) es (push_at k i before)
                ≡ ok after))
        → (after : List (ℕ × List ℕ)) × ((elim m [
          | err x ↦ err x
          | ok k ↦ index_by_shard experts (i + 1) es (push_at k i before)
        ])
            ≡ ok after)
    go (ok k) r f = f k
    go (err x) r f = absurd r
