-- ===== src/Scheduler/Passes.antt =====
-- The three loops of scheduler.hpp, put together from the turns of their sequences.
use aether_mo_e.Common.{
  sym, append-nil, Returns-mono, ℕ, zero, suc, ◌+◌, ◌≡◌, ◌⊎◌, refl, ◌∙◌, List, [], ◌∷◌, ◌++◌, arith,
  Returns, >>=-Returns, ◌==◌, Bool-cases, inl, inr, append_assoc,
}
use aether_mo_e.PageTable.Exclusive.{IsExclusive}
use aether_mo_e.Sequence.{Sequence}
use aether_mo_e.Scheduler.{
  SchedulerConfig, Iteration, visit, decode_pass, prefill_visit, prefill_pass, prefill_one,
  admit_pass,
}
use aether_mo_e.Scheduler.Measures.{
  dead, with_id, dead-append, with_id-append, owed-append, unstarted-append,
}
use aether_mo_e.Scheduler.Turns.{Turn, Pages}
use aether_mo_e.Scheduler.Visits.{Advances, visit-Advances}
use aether_mo_e.Scheduler.Chunks.{prefill_one-Advances, prefill_visit-Advances}

-- A loop that stops where it stands.
stop-Advances :
    (it : Iteration) (xs : List Sequence)
    → dead xs ≡ 0
    → IsExclusive it.page_table
    → Advances it xs it xs
stop-Advances it xs live v = (
  record {
    live = live;
    spent = refl;
    accounted = λ k. refl;
    fewer = λ k. omega arith;
    paid = λ k. refl;
    first = λ k. refl;
    timed = λ k. refl;
  },
  record { exclusive = v; others = λ k h. refl; freed = λ k h h'. absurd (omega arith) },
)

one_or_none : (a b : ℕ) → a + b ≡ 1 → ((a ≡ 1) × (b ≡ 0)) ⊎ ((a ≡ 0) × (b ≡ 1))
one_or_none zero b h = inr (refl, omega arith)
one_or_none (suc a) b h = inl (omega arith, omega arith)

-- A turn, and then the rest of the loop.
module _ (it it₁ it₂ : Iteration) (xs ys xs' ys' : List Sequence) where
  seq-Turn : Turn it xs it₁ xs' → Turn it₁ ys it₂ ys' → Turn it (xs ++ ys) it₂ (xs' ++ ys')
  seq-Turn s t = record {
    live = omega (arith, dead-append xs' ys', s.live, t.live);
    spent = omega (arith, s.spent, t.spent);
    accounted = λ k.
        omega
          (arith, s.accounted k, t.accounted k, with_id-append k xs ys, with_id-append k xs' ys');
    fewer =
        λ k. omega (arith, s.fewer k, t.fewer k, with_id-append k xs ys, with_id-append k xs' ys');
    paid = λ k. omega (arith, s.paid k, t.paid k, owed-append k xs ys, owed-append k xs' ys');
    first = λ k.
        omega (arith, s.first k, t.first k, unstarted-append k xs ys, unstarted-append k xs' ys');
    timed = λ k. omega (arith, s.timed k, t.timed k);
  }

  seq-Pages : Pages it xs it₁ xs' → Pages it₁ ys it₂ ys' → Pages it (xs ++ ys) it₂ (xs' ++ ys')
  seq-Pages s t = record {
    exclusive = t.exclusive;
    others = λ k h.
        t.others k (omega (arith, with_id-append k xs ys))
        ∙ s.others k (omega (arith, with_id-append k xs ys));
    freed = λ k h h'.
        elim (one_or_none (with_id k xs) (with_id k ys) (omega (arith, with_id-append k xs ys))) [
          | inl here ↦
              t.others k here.1 ∙ s.freed k here.0 (omega (arith, with_id-append k xs' ys'))
          | inr later ↦ t.freed k later.1 (omega (arith, with_id-append k xs' ys'))
        ];
  }

  pub seq-Advances :
      Advances it xs it₁ xs' → Advances it₁ ys it₂ ys' → Advances it (xs ++ ys) it₂ (xs' ++ ys')
  seq-Advances s t = (seq-Turn s.0 t.0, seq-Pages s.1 t.1)

dead-cons :
    (q : Sequence) (qs : List Sequence) → dead (q ∷ qs) ≡ 0 → (dead (q ∷ []) ≡ 0) × (dead qs ≡ 0)
dead-cons q qs h = omega arith

-- The first loop does not throw, and keeps all that `Advances` names.
pub decode_pass-Advances :
    (clock : ℕ → ℕ) (it : Iteration) (qs : List Sequence)
    → dead qs ≡ 0
    → IsExclusive it.page_table
    → Returns (decode_pass clock it qs) (λ r. Advances it qs r.0 r.1)
unfolding decode_pass
decode_pass-Advances clock it [] live v = stop-Advances it [] live v
decode_pass-Advances clock it (q ∷ qs) live v = elim (Bool-cases (it.budget == 0)) [
  | inl spent ↦ rw spent (stop-Advances it (q ∷ qs) live v)
  | inr left ↦ rw left (
      >>=-Returns (visit clock it q q.phase) _ (λ r. Advances it (q ∷ []) r.0 r.1) _
        (visit-Advances clock it q (dead-cons q qs live).0 v (ground arith) q.phase refl)
        λ r s.
          >>=-Returns (decode_pass clock r.0 qs) _ (λ t. Advances r.0 qs t.0 t.1) _
            (decode_pass-Advances clock r.0 qs (dead-cons q qs live).1 s.1.exclusive)
            λ t u. seq-Advances it r.0 t.0 (q ∷ []) qs r.1 t.1 s u)
]

pub prefill_pass-Advances :
    (config : SchedulerConfig) (it : Iteration) (qs : List Sequence)
    → dead qs ≡ 0
    → IsExclusive it.page_table
    → Returns (prefill_pass config it qs) (λ r. Advances it qs r.0 r.1)
unfolding prefill_pass
prefill_pass-Advances config it [] live v = stop-Advances it [] live v
prefill_pass-Advances config it (q ∷ qs) live v = elim (Bool-cases (it.budget == 0)) [
  | inl spent ↦ rw spent (stop-Advances it (q ∷ qs) live v)
  | inr left ↦ rw left (
      >>=-Returns (prefill_visit config it q q.phase) _ (λ r. Advances it (q ∷ []) r.0 (r.1 ∷ [])) _
        (prefill_visit-Advances config it q (dead-cons q qs live).0 v q.phase)
        λ r s.
          >>=-Returns (prefill_pass config r.0 qs) _ (λ t. Advances r.0 qs t.0 t.1) _
            (prefill_pass-Advances config r.0 qs (dead-cons q qs live).1 s.1.exclusive)
            λ t u. seq-Advances it r.0 t.0 (q ∷ []) qs (r.1 ∷ []) t.1 s u)
]

-- The third loop: `gone` is what it moves from the waiting queue to the end of the active one.
pub admit_pass-Advances :
    (config : SchedulerConfig) (it : Iteration) (qs active : List Sequence)
    → dead qs ≡ 0
    → IsExclusive it.page_table
    → Returns
        (admit_pass config it qs active)
        (λ r. (gone : List Sequence) × Advances it qs r.0 (gone ++ r.1) × (r.2 ≡ active ++ gone))
unfolding admit_pass
admit_pass-Advances config it [] active live v =
    ([], stop-Advances it [] live v, sym (append-nil active))
admit_pass-Advances config it (q ∷ qs) active live v = elim (Bool-cases (it.budget == 0)) [
  | inl spent ↦ rw spent ([], stop-Advances it (q ∷ qs) live v, sym (append-nil active))
  | inr left ↦ rw left (
      >>=-Returns (prefill_one config it q) _ (λ r. Advances it (q ∷ []) r.0 (r.1 ∷ [])) _
        (prefill_one-Advances config it q (dead-cons q qs live).0 v)
        λ r s. elim (Bool-cases (r.2 == 0)) [
          | inl stuck ↦ rw stuck (
            [],
            seq-Advances it r.0 r.0 (q ∷ []) qs (r.1 ∷ []) qs s
                (stop-Advances r.0 qs (dead-cons q qs live).1 s.1.exclusive),
            sym (append-nil active),
          )
          | inr moved ↦ rw moved (
              Returns-mono (admit_pass config r.0 qs (active ++ r.1 ∷ [])) _ _
                (admit_pass-Advances config r.0 qs (active ++ r.1 ∷ []) (dead-cons q qs live).1
                  s.1.exclusive)
                λ t u. (
                  r.1 ∷ u.0,
                  seq-Advances it r.0 t.0 (q ∷ []) qs (r.1 ∷ []) (u.0 ++ t.1) s u.1,
                  u.2 ∙ append_assoc active (r.1 ∷ []) u.0,
                ))
        ])
]
