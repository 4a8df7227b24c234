-- ===== src/RingBuffer/Steps.antt =====
-- Every access of every thread keeps the invariant.
use native.Mathlib.Nat.{mod-eq_of_lt}
use aether_mo_e.Common.{
  ℕ, ◌+◌, ◌%◌, ◌^◌, ◌≤◌, ◌<◌, ◌≡◌, ◌≢◌, refl, sym, subst, ◌∙◌, ap, Bool, not, ◌&&◌, inl, inr, List,
  [], ◌∷◌, ◌++◌, some, length, size_t, arith, ◌==◌, if◌then◌else◌, Bool-cases, length-append, none,
}
use aether_mo_e.RingBuffer.{
  Ring, Pc, idle, push_load, push_check, push_claim, push_write, push_publish, pop_load, pop_check,
  pop_claim, pop_read, pop_release, System, update, advance, Choice, call_push, call_pop, access,
  choose, run, start, create, is_idle, is_behind, full, empty, pushed, popped,
}
use aether_mo_e.RingBuffer.Claims.{pushing, popping, turn, Relies, IsWindow, Inv}
use aether_mo_e.RingBuffer.Changes.{
  claimed, claimed-Relies, claimed_own, claimed-IsWindow, written, written-Relies, written_own,
  written-IsWindow, published, published-Relies, published-IsWindow, taken, taken-Relies, taken_own,
  taken-IsWindow, released, released-Relies, released-IsWindow,
}

module _ {A : Type 0} (capacity : ℕ) (s : System A) (v : Inv capacity s) (t : ℕ) where
  abbrev after : Ring A → Pc A → System A
  after m p = record { ring = m; pc = update s.pc t p }

  -- Thread `t` is at `p` now: what is to be shown of it and of the others.
  settle :
      (m : Ring A) (p : Pc A)
      → IsWindow capacity m
      → Relies capacity m p
      → ((u : ℕ) → u ≢ t → Relies capacity m (s.pc u))
      → ((u pos : ℕ) → u ≢ t → pushing p ≡ some pos → pushing (s.pc u) ≢ some pos)
      → ((u pos : ℕ) → u ≢ t → popping p ≡ some pos → popping (s.pc u) ≢ some pos)
      → Inv capacity (after m p)
  settle m p w own others push_alone pop_alone = record {
    window = w;
    relies = λ u. elim (Bool-cases (t == u)) [
      | inl e ↦ rw e own
      | inr e ↦ rw e (others u (ground arith))
    ];
    pushers = λ a b pos f g. ground (arith, v.pushers a b pos, push_alone a pos, push_alone b pos);
    poppers = λ a b pos f g. ground (arith, v.poppers a b pos, pop_alone a pos, pop_alone b pos);
  }

  -- The ring is left alone, and no position is claimed.
  wait :
      (p : Pc A)
      → Relies capacity s.ring p
      → pushing p ≡ none
      → popping p ≡ none
      → Inv capacity (after s.ring p)
  wait p own e f =
      settle s.ring p v.window own (λ u ne. v.relies u) (λ u pos ne g. cc) (λ u pos ne g. cc)

  -- What the thread relies on, where it stands at `p`.
  own : (p : Pc A) → s.pc t ≡ p → Relies capacity s.ring p
  own p e = subst (Relies capacity s.ring) e (v.relies t)

  no_pusher :
      (p : Pc A) (pos u : ℕ)
      → s.pc t ≡ p
      → pushing p ≡ some pos
      → u ≢ t
      → pushing (s.pc u) ≢ some pos
  no_pusher p pos u e f ne g = ne (v.pushers u t pos g (ap pushing e ∙ f))

  no_popper :
      (p : Pc A) (pos u : ℕ)
      → s.pc t ≡ p
      → popping p ≡ some pos
      → u ≢ t
      → popping (s.pc u) ≢ some pos
  no_popper p pos u e f ne g = ne (v.poppers u t pos g (ap popping e ∙ f))

  -- A claim of the next position is new.
  fresh_push : (p : Pc A) → Relies capacity s.ring p → pushing p ≢ some s.ring.enqueue_pos
  fresh_push (push_write x pos) h e = ground arith
  fresh_push (push_publish x pos) h e = ground arith
  fresh_push (idle r) h e = cc
  fresh_push (push_load x) h e = cc
  fresh_push (push_check x pos) h e = cc
  fresh_push (push_claim x pos) h e = cc
  fresh_push pop_load h e = cc
  fresh_push (pop_check pos) h e = cc
  fresh_push (pop_claim pos) h e = cc
  fresh_push (pop_read pos) h e = cc
  fresh_push (pop_release x pos) h e = cc

  fresh_pop : (p : Pc A) → Relies capacity s.ring p → popping p ≢ some s.ring.dequeue_pos
  fresh_pop (pop_read pos) h e = ground arith
  fresh_pop (pop_release x pos) h e = ground arith
  fresh_pop (idle r) h e = cc
  fresh_pop (push_load x) h e = cc
  fresh_pop (push_check x pos) h e = cc
  fresh_pop (push_claim x pos) h e = cc
  fresh_pop (push_write x pos) h e = cc
  fresh_pop (push_publish x pos) h e = cc
  fresh_pop pop_load h e = cc
  fresh_pop (pop_check pos) h e = cc
  fresh_pop (pop_claim pos) h e = cc

  claim_push :
      (x : A) (pos : ℕ)
      → s.ring.enqueue_pos ≡ pos
      → turn capacity s.ring s.ring.enqueue_pos ≡ s.ring.enqueue_pos
      → length (s.ring.history ++ (x ∷ [])) + capacity < 2 ^ 63
      → Inv capacity (
          after
            (record s.ring { enqueue_pos = size_t (pos + 1); history = s.ring.history ++ (x ∷ []) })
            (push_write x pos))
  claim_push x pos e free b =
      subst
        (λ q. Inv capacity (
          after
            (record s.ring { enqueue_pos = size_t (q + 1); history = s.ring.history ++ (x ∷ []) })
            (push_write x q)))
        e
        (settle (claimed capacity s.ring v.window x free) (push_write x s.ring.enqueue_pos)
          (claimed-IsWindow capacity s.ring v.window x free b)
          (claimed_own capacity s.ring v.window x free)
          (λ u ne. claimed-Relies capacity s.ring v.window x free (s.pc u) (v.relies u))
          (λ u q ne f.
            subst (λ k. pushing (s.pc u) ≢ some k) (ground arith)
              (fresh_push (s.pc u) (v.relies u)))
          (λ u q ne f. cc))

  claim_pop :
      (pos : ℕ)
      → s.ring.dequeue_pos ≡ pos
      → turn capacity s.ring s.ring.dequeue_pos ≡ s.ring.dequeue_pos + 1
      → Inv capacity (after (record s.ring { dequeue_pos = size_t (pos + 1) }) (pop_read pos))
  claim_pop pos e there =
      subst
        (λ q. Inv capacity (after (record s.ring { dequeue_pos = size_t (q + 1) }) (pop_read q))) e
        (settle (taken capacity s.ring v.window there) (pop_read s.ring.dequeue_pos)
          (taken-IsWindow capacity s.ring v.window there) (taken_own capacity s.ring v.window there)
          (λ u ne. taken-Relies capacity s.ring v.window there (s.pc u) (v.relies u))
          (λ u q ne f. cc)
          (λ u q ne f.
            subst (λ k. popping (s.pc u) ≢ some k) (ground arith)
              (fresh_pop (s.pc u) (v.relies u))))

  module _ (fails : Bool) where
    abbrev moved : Pc A → System A
    moved p = after (advance capacity fails s.ring p).0 (advance capacity fails s.ring p).1

    moved-Inv :
        (p : Pc A)
        → s.pc t ≡ p
        → length (advance capacity fails s.ring p).0.history + capacity < 2 ^ 63
        → Inv capacity (moved p)
    unfolding advance
    moved-Inv (idle r) e b = wait (idle r) tt refl refl
    moved-Inv (push_load x) e b = wait (push_check x s.ring.enqueue_pos) (omega arith) refl refl
    moved-Inv (push_check x pos) e b =
        let h : pos ≤ s.ring.enqueue_pos = own (push_check x pos) e in
        elim (Bool-cases (turn capacity s.ring pos == pos)) [
          | inl f ↦ rw f (wait (push_claim x pos) (h, λ k. ground arith) refl refl)
          | inr f ↦ elim (Bool-cases (is_behind (turn capacity s.ring pos) pos)) [
            | inl g ↦ rw (f, g) (wait (idle full) tt refl refl)
            | inr g ↦ rw (f, g) (wait (push_load x) tt refl refl)
          ]
        ]
    moved-Inv (push_claim x pos) e b =
        let (h, seen) = own (push_claim x pos) e in
        elim (Bool-cases (not fails && s.ring.enqueue_pos == pos)) [
          | inl f ↦
              let here : s.ring.enqueue_pos ≡ pos = ground arith in
              rw f (
                claim_push x pos here
                  (subst (λ q. turn capacity s.ring q ≡ q) (sym here) (seen (sym here)))
                  (rw f at b))
          | inr f ↦ rw f (wait (push_check x s.ring.enqueue_pos) (omega arith) refl refl)
        ]
    moved-Inv (push_write x pos) e b =
        let h : Relies capacity s.ring (push_write x pos) = own (push_write x pos) e in
        settle (written capacity s.ring v.window x pos h) (push_publish x pos)
          (written-IsWindow capacity s.ring v.window x pos h)
          (written_own capacity s.ring v.window x pos h)
          (λ u ne.
            written-Relies capacity s.ring v.window x pos h (s.pc u)
              (no_pusher (push_write x pos) pos u e refl ne) (v.relies u))
          (λ u q ne f. no_pusher (push_write x pos) q u e f ne) (λ u q ne f. cc)
    moved-Inv (push_publish x pos) e b =
        let h : Relies capacity s.ring (push_publish x pos) = own (push_publish x pos) e in
        settle (published capacity s.ring v.window x pos h) (idle pushed)
          (published-IsWindow capacity s.ring v.window x pos h) tt
          (λ u ne.
            published-Relies capacity s.ring v.window x pos h (s.pc u)
              (no_pusher (push_publish x pos) pos u e refl ne) (v.relies u))
          (λ u q ne f. cc) (λ u q ne f. cc)
    moved-Inv pop_load e b = wait (pop_check s.ring.dequeue_pos) (omega arith) refl refl
    moved-Inv (pop_check pos) e b =
        let h : pos ≤ s.ring.dequeue_pos = own (pop_check pos) e in
        let w = v.window in
        elim (Bool-cases (turn capacity s.ring pos == size_t (pos + 1))) [
          | inl f ↦
              rw f
                (wait (pop_claim pos) (h, λ k. ground (arith, w.low, w.few, w.counted)) refl refl)
          | inr f ↦ elim (Bool-cases (is_behind (turn capacity s.ring pos) (size_t (pos + 1)))) [
            | inl g ↦ rw (f, g) (wait (idle empty) tt refl refl)
            | inr g ↦ rw (f, g) (wait pop_load tt refl refl)
          ]
        ]
    moved-Inv (pop_claim pos) e b =
        let (h, seen) = own (pop_claim pos) e in
        elim (Bool-cases (not fails && s.ring.dequeue_pos == pos)) [
          | inl f ↦
              let here : s.ring.dequeue_pos ≡ pos = ground arith in
              rw f (
                claim_pop pos here
                  (subst (λ q. turn capacity s.ring q ≡ q + 1) (sym here) (seen (sym here))))
          | inr f ↦ rw f (wait (pop_check s.ring.dequeue_pos) (omega arith) refl refl)
        ]
    moved-Inv (pop_read pos) e b =
        let h : Relies capacity s.ring (pop_read pos) = own (pop_read pos) e in
        settle s.ring (pop_release (s.ring.item (pos % capacity)) pos) v.window h
          (λ u ne. v.relies u) (λ u q ne f. cc) (λ u q ne f. no_popper (pop_read pos) q u e f ne)
    moved-Inv (pop_release x pos) e b =
        let h : Relies capacity s.ring (pop_release x pos) = own (pop_release x pos) e in
        settle (released capacity s.ring v.window x pos h) (idle (popped x))
          (released-IsWindow capacity s.ring v.window x pos h) tt
          (λ u ne.
            released-Relies capacity s.ring v.window x pos h (s.pc u)
              (no_popper (pop_release x pos) pos u e refl ne) (v.relies u))
          (λ u q ne f. cc) (λ u q ne f. cc)

  -- A call that starts.
  call-Inv :
      (p : Pc A)
      → Relies capacity s.ring p
      → pushing p ≡ none
      → popping p ≡ none
      → Inv capacity (if is_idle (s.pc t) then record s { pc = update s.pc t p } else s)
  call-Inv p h e f = elim (Bool-cases (is_idle (s.pc t))) [
    | inl g ↦ rw g (wait p h e f)
    | inr g ↦ rw g v
  ]

module _ {A : Type 0} (capacity : ℕ) where
  pub choose-Inv :
      (s : System A) (c : Choice A)
      → Inv capacity s
      → length (choose capacity s c).ring.history + capacity < 2 ^ 63
      → Inv capacity (choose capacity s c)
  unfolding choose
  choose-Inv s (call_push t x) v b = call-Inv capacity s v t (push_load x) tt refl refl
  choose-Inv s (call_pop t) v b = call-Inv capacity s v t pop_load tt refl refl
  choose-Inv s (access t fails) v b = moved-Inv capacity s v t fails (s.pc t) refl b

  length-choose :
      (s : System A) (c : Choice A)
      → length s.ring.history ≤ length (choose capacity s c).ring.history
  unfolding choose
  length-choose s (call_push t x) = ground arith
  length-choose s (call_pop t) = ground arith
  length-choose s (access t fails) = grows (s.pc t)
    where
      grows :
          (p : Pc A) → length s.ring.history ≤ length (advance capacity fails s.ring p).0.history
      grows (push_claim x pos) = ground (arith, length-append s.ring.history (x ∷ []))
      grows p = ground arith

  pub length-run :
      (s : System A) (cs : List (Choice A))
      → length s.ring.history ≤ length (run capacity s cs).ring.history
  unfolding run
  length-run s [] = omega arith
  length-run s (c ∷ cs) = omega (arith, length-choose s c, length-run (choose capacity s c) cs)

  pub run-Inv :
      (s : System A) (cs : List (Choice A))
      → Inv capacity s
      → length (run capacity s cs).ring.history + capacity < 2 ^ 63
      → Inv capacity (run capacity s cs)
  unfolding run
  run-Inv s [] v b = v
  run-Inv s (c ∷ cs) v b =
      run-Inv (choose capacity s c) cs
        (choose-Inv s c v (omega (arith, length-run (choose capacity s c) cs))) b

  pub start-Inv : (items : ℕ → A) → 2 ≤ capacity → capacity < 2 ^ 63 → Inv capacity (start items)
  unfolding create
  start-Inv items big few = record {
    window = record {
      big = big;
      few = omega arith;
      counted = refl;
      low = omega arith;
      high = omega arith;
      cells = λ pos h k. inr (omega arith, inl (mod-eq_of_lt (omega arith)));
    };
    relies = λ t. tt;
    pushers = λ t u pos f g. cc;
    poppers = λ t u pos f g. cc;
  }
