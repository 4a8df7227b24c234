-- ===== src/RingBuffer/Deliveries.antt =====
-- Each position that pops have claimed is delivered once, with the item pushed there.
use native.Mathlib.Decide.{ℕ_discrete}
use aether_mo_e.Common.{
  ℕ, zero, suc, ◌+◌, ◌^◌, ◌≤◌, ◌<◌, ◌≡◌, ◌≢◌, ◌⊎◌, refl, sym, ap, ◌∙◌, subst, Bool, true, not, ◌&&◌,
  inl, inr, List, [], ◌∷◌, ◌++◌, some, none, length, map, size_t, arith, ◌==◌, if◌then◌else◌,
  Bool-cases, get_elem?, All, count,
}
use aether_mo_e.RingBuffer.{
  Ring, Pc, idle, push_load, push_check, push_claim, push_write, push_publish, pop_load, pop_check,
  pop_claim, pop_read, pop_release, System, advance, Choice, call_push, call_pop, access, choose,
  run, start, is_idle, is_behind, update, popped, full, empty, create,
}
use aether_mo_e.RingBuffer.Claims.{popping, Relies, Inv, turn}
use aether_mo_e.RingBuffer.Steps.{start-Inv, choose-Inv, length-run}

abbrev pub delivered : {A : Type 0} → Ring A → List ℕ
delivered m = map (λ d. d.0) m.deliveries

-- Every item returned is the one that was pushed at its position.
abbrev pub IsRight : {A : Type 0} → Ring A → List (ℕ × A) → Type 0
IsRight m ds = All (λ d. get_elem? m.history d.0 ≡ some d.1) ds

-- A claimed position is delivered once or on its way, in one thread.
abbrev pub IsOnce : {A : Type 0} → System A → ℕ → Type 0
IsOnce s pos =
    ((count pos (delivered s.ring) ≡ 1) × ((t : ℕ) → popping (s.pc t) ≢ some pos))
    ⊎ ((count pos (delivered s.ring) ≡ 0) × ((t : ℕ) × (popping (s.pc t) ≡ some pos)))

pub record Delivered {A : Type 0} (s : System A) : Type 0 where
  pub right : IsRight s.ring s.ring.deliveries
  pub once : (pos : ℕ) → pos < s.ring.dequeue_pos → IsOnce s pos
  pub later : (pos : ℕ) → s.ring.dequeue_pos ≤ pos → count pos (delivered s.ring) ≡ 0

IsRight-append :
    {A : Type 0} (m : Ring A) (ds : List (ℕ × A)) (x : A)
    → IsRight m ds
    → All (λ d. get_elem? (m.history ++ (x ∷ [])) d.0 ≡ some d.1) ds
IsRight-append m [] x h = tt
IsRight-append {A} m (d ∷ ds) x h = (stays m.history d.0 h.0, IsRight-append m ds x h.1)
  where
    stays :
        (xs : List A) (i : ℕ) {v : A}
        → get_elem? xs i ≡ some v
        → get_elem? (xs ++ (x ∷ [])) i ≡ some v
    stays [] i e = cc
    stays (y ∷ ys) zero e = e
    stays (y ∷ ys) (suc i) e = stays ys i e

IsOnce-same :
    {A : Type 0} (s s' : System A) (pos : ℕ)
    → s'.ring.deliveries ≡ s.ring.deliveries
    → ((u : ℕ) → popping (s'.pc u) ≡ popping (s.pc u))
    → IsOnce s pos
    → IsOnce s' pos
IsOnce-same s s' pos e g (inl (c, nobody)) =
    inl (ap (λ ds. count pos (map (λ d. d.0) ds)) e ∙ c, λ u f. nobody u (sym (g u) ∙ f))
IsOnce-same s s' pos e g (inr (c, (u, f))) =
    inr (ap (λ ds. count pos (map (λ d. d.0) ds)) e ∙ c, (u, g u ∙ f))

idle-popping : {A : Type 0} (p : Pc A) → is_idle p ≡ true → popping p ≡ none
idle-popping (pop_read pos) e = cc
idle-popping (pop_release x pos) e = cc
idle-popping (idle r) e = refl
idle-popping (push_load x) e = refl
idle-popping (push_check x pos) e = refl
idle-popping (push_claim x pos) e = refl
idle-popping (push_write x pos) e = refl
idle-popping (push_publish x pos) e = refl
idle-popping pop_load e = refl
idle-popping (pop_check pos) e = refl
idle-popping (pop_claim pos) e = refl

module _ {A : Type 0} (capacity : ℕ) (s : System A) (v : Inv capacity s) (d : Delivered s)
    (t : ℕ) where
  abbrev after : Ring A → Pc A → System A
  after m p = record { ring = m; pc = update s.pc t p }

  popping-update :
      (m : Ring A) (p : Pc A)
      → popping p ≡ popping (s.pc t)
      → (u : ℕ) → popping ((after m p).pc u) ≡ popping (s.pc u)
  popping-update m p g u = elim (Bool-cases (t == u)) [
    | inl e ↦ rw e (g ∙ ap (λ j. popping (s.pc j)) (ground arith))
    | inr e ↦ rw e refl
  ]

  -- The thread still has what it has claimed, and nothing is delivered.
  keep :
      (m : Ring A) (p : Pc A)
      → m.deliveries ≡ s.ring.deliveries
      → m.dequeue_pos ≡ s.ring.dequeue_pos
      → IsRight m m.deliveries
      → popping p ≡ popping (s.pc t)
      → Delivered (after m p)
  keep m p e f r g = record {
    right = r;
    once =
        λ pos h. IsOnce-same s (after m p) pos e (popping-update m p g) (d.once pos (omega arith));
    later = λ pos h. ap (λ ds. count pos (map (λ x. x.0) ds)) e ∙ d.later pos (omega arith);
  }

  -- The ring is left alone by a thread that has claimed nothing to pop.
  stay : {q : Pc A} (p : Pc A) → popping p ≡ popping q → s.pc t ≡ q → Delivered (after s.ring p)
  stay p f e = keep s.ring p refl refl d.right (f ∙ sym (ap popping e))

  claim_pop :
      (pos : ℕ)
      → s.ring.dequeue_pos ≡ pos
      → pos + 1 < 2 ^ 64
      → popping (s.pc t) ≡ none
      → Delivered (after (record s.ring { dequeue_pos = size_t (pos + 1) }) (pop_read pos))
  claim_pop pos e few g = record {
    right = d.right;
    once = λ q h. elim (ℕ_discrete q pos) [
      | yes here ↦ inr (d.later q (omega arith), (t, ground arith))
      | no other ↦ before q other (d.once q (omega arith))
    ];
    later = λ q h. d.later q (omega arith);
  }
    where
      before :
          (q : ℕ)
          → q ≢ pos
          → IsOnce s q
          → IsOnce (after (record s.ring { dequeue_pos = size_t (pos + 1) }) (pop_read pos)) q
      before q ne (inl (c, nobody)) = inl (c, λ u f. ground (arith, nobody u))
      before q ne (inr (c, (u, f))) = inr (c, (u, ground arith))

  release :
      (x : A) (pos : ℕ)
      → s.pc t ≡ pop_release x pos
      → (sequence : ℕ → ℕ)
      → Delivered (
          after
            (record s.ring { sequence = sequence; deliveries = (pos, x) ∷ s.ring.deliveries })
            (idle (popped x)))
  release x pos e sequence = record {
    right = ((subst (Relies capacity s.ring) e (v.relies t)).3, d.right);
    once = λ q h. elim (ℕ_discrete q pos) [
      | yes here ↦ own q here (d.once q h)
      | no other ↦ before q other (d.once q h)
    ];
    later = λ q h. ground (arith, d.later q h, (subst (Relies capacity s.ring) e (v.relies t)).0);
  }
    where
      freed : System A
      freed =
          after (record s.ring { sequence = sequence; deliveries = (pos, x) ∷ s.ring.deliveries })
            (idle (popped x))

      own : (q : ℕ) → q ≡ pos → IsOnce s q → IsOnce freed q
      own q here (inl (c, nobody)) = absurd (nobody t (ground arith))
      own q here (inr (c, (u, f))) = inl (ground arith, λ w g. ground (arith, v.poppers t w pos))

      before : (q : ℕ) → q ≢ pos → IsOnce s q → IsOnce freed q
      before q ne (inl (c, nobody)) = inl (ground arith, λ u f. ground (arith, nobody u))
      before q ne (inr (c, (u, f))) = inr (ground arith, (u, ground arith))

  advance-Delivered :
      (fails : Bool) (p : Pc A)
      → s.pc t ≡ p
      → Delivered (after (advance capacity fails s.ring p).0 (advance capacity fails s.ring p).1)
  unfolding advance
  advance-Delivered fails (idle r) e = keep s.ring (idle r) refl refl d.right (sym (ap popping e))
  advance-Delivered fails (push_load x) e =
      keep s.ring (push_check x s.ring.enqueue_pos) refl refl d.right (sym (ap popping e))
  advance-Delivered fails (push_check x pos) e =
      elim (Bool-cases (turn capacity s.ring pos == pos)) [
        | inl f ↦ rw f (stay (push_claim x pos) refl e)
        | inr f ↦ elim (Bool-cases (is_behind (turn capacity s.ring pos) pos)) [
          | inl g ↦ rw (f, g) (stay (idle full) refl e)
          | inr g ↦ rw (f, g) (stay (push_load x) refl e)
        ]
      ]
  advance-Delivered fails (push_claim x pos) e =
      elim (Bool-cases (not fails && s.ring.enqueue_pos == pos)) [
        | inl f ↦ rw f (
            keep _ (push_write x pos) refl refl (IsRight-append s.ring s.ring.deliveries x d.right)
              (sym (ap popping e)))
        | inr f ↦ rw f (stay (push_check x s.ring.enqueue_pos) refl e)
      ]
  advance-Delivered fails (push_write x pos) e = keep _ _ refl refl d.right (sym (ap popping e))
  advance-Delivered fails (push_publish x pos) e = keep _ _ refl refl d.right (sym (ap popping e))
  advance-Delivered fails pop_load e = keep _ _ refl refl d.right (sym (ap popping e))
  advance-Delivered fails (pop_check pos) e =
      elim (Bool-cases (turn capacity s.ring pos == size_t (pos + 1))) [
        | inl f ↦ rw f (stay (pop_claim pos) refl e)
        | inr f ↦ elim (Bool-cases (is_behind (turn capacity s.ring pos) (size_t (pos + 1)))) [
          | inl g ↦ rw (f, g) (stay (idle empty) refl e)
          | inr g ↦ rw (f, g) (stay pop_load refl e)
        ]
      ]
  advance-Delivered fails (pop_claim pos) e =
      elim (Bool-cases (not fails && s.ring.dequeue_pos == pos)) [
        | inl f ↦ rw f (
            claim_pop pos (ground arith)
              (ground (arith, v.window.low, v.window.few, v.window.counted)) (ap popping e))
        | inr f ↦ rw f (stay (pop_check s.ring.dequeue_pos) refl e)
      ]
  advance-Delivered fails (pop_read pos) e = keep _ _ refl refl d.right (sym (ap popping e))
  advance-Delivered fails (pop_release x pos) e = release x pos e _

  call-Delivered :
      (p : Pc A)
      → popping p ≡ none
      → Delivered (if is_idle (s.pc t) then record s { pc = update s.pc t p } else s)
  call-Delivered p e = elim (Bool-cases (is_idle (s.pc t))) [
    | inl g ↦ rw g (keep s.ring p refl refl d.right (e ∙ sym (idle-popping (s.pc t) g)))
    | inr g ↦ rw g d
  ]

module _ {A : Type 0} (capacity : ℕ) where
  choose-Delivered :
      (s : System A) (c : Choice A) → Inv capacity s → Delivered s → Delivered (choose capacity s c)
  unfolding choose
  choose-Delivered s (call_push t x) v d = call-Delivered capacity s v d t (push_load x) refl
  choose-Delivered s (call_pop t) v d = call-Delivered capacity s v d t pop_load refl
  choose-Delivered s (access t fails) v d = advance-Delivered capacity s v d t fails (s.pc t) refl

  run-Delivered :
      (s : System A) (cs : List (Choice A))
      → Inv capacity s
      → length (run capacity s cs).ring.history + capacity < 2 ^ 63
      → Delivered s
      → Delivered (run capacity s cs)
  unfolding run
  run-Delivered s [] v b d = d
  run-Delivered s (c ∷ cs) v b d =
      let few : length (choose capacity s c).ring.history + capacity < 2 ^ 63 =
        omega (arith, length-run capacity (choose capacity s c) cs) in
      run-Delivered (choose capacity s c) cs (choose-Inv capacity s c v few) b
        (choose-Delivered s c v d)

start-Delivered : {A : Type 0} (items : ℕ → A) → Delivered (start items)
unfolding create
start-Delivered items = record {
  right = tt;
  once = λ pos h. absurd (omega arith);
  later = λ pos h. refl;
}

-- Nothing is lost, repeated or mixed up. After any accesses of any threads, what pops have returned
-- are the items pushed at their positions; each position below dequeue_pos has been returned once
-- and no thread pops it, or it has not been returned and a thread pops it; no other position has
-- been returned. The capacity is at least 2, and less than 2 ^ 63 together with the number of pushes.
pub run_delivers :
    {A : Type 0} (capacity : ℕ) (items : ℕ → A) (cs : List (Choice A))
    → 2 ≤ capacity
    → length (run capacity (start items) cs).ring.history + capacity < 2 ^ 63
    → Delivered (run capacity (start items) cs)
run_delivers capacity items cs big few =
    run-Delivered capacity (start items) cs (start-Inv capacity items big (omega arith)) few
      (start-Delivered items)
