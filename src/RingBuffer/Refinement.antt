-- ===== src/RingBuffer/Refinement.antt =====
-- What the ring's calls do to a bounded queue: what has been claimed by pushes and not by pops.
use aether_mo_e.Common.{
  ℕ, zero, suc, ◌+◌, ◌^◌, ◌≤◌, ◌<◌, ◌≡◌, refl, sym, ap, ◌∙◌, subst, Bool, not, ◌&&◌, inl, inr, List,
  [], ◌∷◌, ◌++◌, length, drop, get_elem?, some, size_t, arith, ◌==◌, if◌then◌else◌, Bool-cases,
  length-drop,
}
use aether_mo_e.RingBuffer.{
  Ring, Pc, idle, push_load, push_check, push_claim, push_write, push_publish, pop_load, pop_check,
  pop_claim, pop_read, pop_release, System, advance, Choice, call_push, call_pop, access, choose,
  run, start,
}
use aether_mo_e.RingBuffer.Claims.{Relies, Inv, turn}
use aether_mo_e.RingBuffer.Changes.{room, some_left}
use aether_mo_e.RingBuffer.Steps.{run-Inv, start-Inv}

abbrev pub queue : {A : Type 0} → Ring A → List A
queue m = drop m.dequeue_pos m.history

-- What happens to the queue: one item goes in, the first goes out, or nothing.
pub data Effect (A : Type 0) : Type 0 where
  nothing : Effect A
  puts : A → Effect A
  gets : Effect A

-- The compare-exchanges that win are where a call takes effect.
abbrev pub effect_at : {A : Type 0} → Bool → Ring A → Pc A → Effect A
effect_at fails m (push_claim x pos) = if not fails && m.enqueue_pos == pos then puts x else nothing
effect_at fails m (pop_claim pos) = if not fails && m.dequeue_pos == pos then gets else nothing
effect_at _ _ _ = nothing

abbrev pub effect : {A : Type 0} → System A → Choice A → Effect A
effect s (access t fails) = effect_at fails s.ring (s.pc t)
effect s _ = nothing

-- The steps of a bounded queue.
abbrev pub QueueStep : {A : Type 0} → ℕ → Effect A → List A → List A → Type 0
QueueStep capacity nothing q r = r ≡ q
QueueStep capacity (puts x) q r = (length q < capacity) × (r ≡ q ++ (x ∷ []))
QueueStep {A} capacity gets q r = (x : A) × (q ≡ x ∷ r)

drop-append_left {ℓ} :
    {A : Type ℓ} (n : ℕ) (xs ys : List A) → n ≤ length xs → drop n (xs ++ ys) ≡ drop n xs ++ ys
drop-append_left zero xs ys h = refl
drop-append_left (suc n) [] ys h = absurd (omega arith)
drop-append_left (suc n) (x ∷ xs) ys h = drop-append_left n xs ys (omega arith)

drop_head {ℓ} :
    {A : Type ℓ} (n : ℕ) (xs : List A) → n < length xs → (x : A) × (drop n xs ≡ x ∷ drop (suc n) xs)
drop_head n [] h = absurd (omega arith)
drop_head zero (x ∷ xs) h = (x, refl)
drop_head (suc n) (x ∷ xs) h = drop_head n xs (omega arith)

module _ {A : Type 0} (capacity : ℕ) (s : System A) (v : Inv capacity s) where
  open v use {window}

  put-QueueStep :
      (x : A)
      → turn capacity s.ring s.ring.enqueue_pos ≡ s.ring.enqueue_pos
      → QueueStep capacity
          (puts x)
          (queue s.ring)
          (drop s.ring.dequeue_pos (s.ring.history ++ (x ∷ [])))
  put-QueueStep x free = (
    omega (
      arith,
      length-drop s.ring.dequeue_pos s.ring.history,
      window.low,
      window.counted,
      room capacity s.ring window x free,
    ),
    drop-append_left s.ring.dequeue_pos s.ring.history (x ∷ [])
        (omega (arith, window.low, window.counted)),
  )

  get-QueueStep :
      turn capacity s.ring s.ring.dequeue_pos ≡ s.ring.dequeue_pos + 1
      → QueueStep capacity gets
          (queue s.ring)
          (drop (size_t (s.ring.dequeue_pos + 1)) s.ring.history)
  get-QueueStep there =
      let left = some_left capacity s.ring window there in
      let (x, e) = drop_head s.ring.dequeue_pos s.ring.history (omega (arith, window.counted)) in
      let next : suc s.ring.dequeue_pos ≡ size_t (s.ring.dequeue_pos + 1) =
        omega (arith, window.few, window.counted) in
      (x, e ∙ ap (λ n. x ∷ drop n s.ring.history) next)

  advance-QueueStep :
      (fails : Bool) (p : Pc A)
      → Relies capacity s.ring p
      → QueueStep capacity
          (effect_at fails s.ring p)
          (queue s.ring)
          (queue (advance capacity fails s.ring p).0)
  unfolding advance
  advance-QueueStep fails (idle r) h = refl
  advance-QueueStep fails (push_load x) h = refl
  advance-QueueStep fails (push_check x pos) h = ground arith
  advance-QueueStep fails (push_claim x pos) h =
      elim (Bool-cases (not fails && s.ring.enqueue_pos == pos)) [
        | inl f ↦
            let here : s.ring.enqueue_pos ≡ pos = ground arith in
            rw f (
              put-QueueStep x (subst (λ q. turn capacity s.ring q ≡ q) (sym here) (h.1 (sym here))))
        | inr f ↦ rw f (refl)
      ]
  advance-QueueStep fails (push_write x pos) h = refl
  advance-QueueStep fails (push_publish x pos) h = refl
  advance-QueueStep fails pop_load h = refl
  advance-QueueStep fails (pop_check pos) h = ground arith
  advance-QueueStep fails (pop_claim pos) h =
      elim (Bool-cases (not fails && s.ring.dequeue_pos == pos)) [
        | inl f ↦
            let here : s.ring.dequeue_pos ≡ pos = ground arith in
            rw f (
              subst
                (λ q. QueueStep capacity gets (queue s.ring) (drop (size_t (q + 1)) s.ring.history))
                here
                (get-QueueStep
                  (subst (λ q. turn capacity s.ring q ≡ q + 1) (sym here) (h.1 (sym here)))))
        | inr f ↦ rw f (refl)
      ]
  advance-QueueStep fails (pop_read pos) h = refl
  advance-QueueStep fails (pop_release x pos) h = refl

  choose-QueueStep :
      (c : Choice A)
      → QueueStep capacity (effect s c) (queue s.ring) (queue (choose capacity s c).ring)
  unfolding choose
  choose-QueueStep (call_push t x) = ground arith
  choose-QueueStep (call_pop t) = ground arith
  choose-QueueStep (access t fails) = advance-QueueStep fails (s.pc t) (v.relies t)

-- The queue of what pushes have claimed and pops have not. Whatever accesses of whatever threads have
-- come before, a push that wins its compare-exchange finds the queue shorter than the capacity and
-- appends its item; a pop that wins finds an item and takes the first; and no other access or call
-- changes the queue. What a pop is about to reply is the item of its push: the one that stands at the
-- position that it has claimed, among all items in the order in which they were appended. A call that
-- replies full or empty only leaves the queue as it is. The capacity is at least 2, and less than
-- 2 ^ 63 together with the number of pushes.
pub run-QueueStep :
    {A : Type 0} (capacity : ℕ) (items : ℕ → A) (cs : List (Choice A)) (c : Choice A)
    → 2 ≤ capacity
    → length (run capacity (start items) cs).ring.history + capacity < 2 ^ 63
    → let s = run capacity (start items) cs in
      QueueStep capacity (effect s c) (queue s.ring) (queue (choose capacity s c).ring)
      × ((t pos : ℕ) (v : A)
          → s.pc t ≡ pop_release v pos
          → (pos < s.ring.dequeue_pos) × (get_elem? s.ring.history pos ≡ some v))
run-QueueStep capacity items cs c big few =
    let s = run capacity (start items) cs in
    let inv = run-Inv capacity (start items) cs (start-Inv capacity items big (omega arith)) few in
    (
      choose-QueueStep capacity s inv c,
      λ t pos v e.
          let relies = subst (Relies capacity s.ring) e (inv.relies t) in (relies.0, relies.3),
    )
