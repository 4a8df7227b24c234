-- ===== src/RingBuffer/Tests.antt =====
-- Threads 0 and 1 push, threads 2 and 3 pop, on a ring of two cells.
use aether_mo_e.Common.{
  get_elem?, some, ℕ, ◌<◌, ◌≡◌, refl, true, false, List, [], ◌∷◌, ◌++◌, arith, replicate,
}
use aether_mo_e.RingBuffer.{
  pop_release, pop_claim, idle, pushed, full, empty, popped, Choice, call_push, call_pop, access,
  choose, run, start, create, size_approx,
}
use aether_mo_e.RingBuffer.Refinement.{queue, effect, QueueStep, run-QueueStep}
use aether_mo_e.RingBuffer.Deliveries.{Delivered, run_delivers}

abbrev zeros : ℕ → ℕ
zeros i = 0

-- Both pushes load position 0; thread 1 wins it, and thread 0 goes on to position 1.
abbrev race : List (Choice ℕ)
race =
    call_push 0 10
    ∷ call_push 1 11
    ∷ access 0 false
    ∷ access 0 false
    ∷ access 1 false
    ∷ access 1 false
    ∷ access 1 true
    ∷ access 1 false
    ∷ access 1 false
    ∷ access 0 false
    ∷ []

-- A failed compare-exchange costs another check; then the rest of the two pushes.
abbrev two_pushes : List (Choice ℕ)
two_pushes = race ++ (replicate 4 (access 1 false) ++ replicate 6 (access 0 false))

race_result : queue (run 2 (start zeros) race).ring ≡ 11 ∷ []
unfolding run create
race_result = refl

two_pushes_result :
    (queue (run 2 (start zeros) two_pushes).ring ≡ 11 ∷ 10 ∷ [])
    × ((run 2 (start zeros) two_pushes).pc 0 ≡ idle pushed)
    × ((run 2 (start zeros) two_pushes).pc 1 ≡ idle pushed)
    × (size_approx (run 2 (start zeros) two_pushes).ring ≡ 2)
unfolding run create size_approx
two_pushes_result = (refl, refl, refl, refl)

third_push_is_full :
    (run 2 (start zeros) (two_pushes ++ (call_push 1 12 ∷ replicate 2 (access 1 false)))).pc 1
    ≡ idle full
unfolding run create
third_push_is_full = refl

-- The pops of threads 2 and 3 take turns; then thread 2 finds nothing.
abbrev pops : List (Choice ℕ)
pops =
    two_pushes
    ++ (call_pop 2 ∷ call_pop 3 ∷ replicate 5 (access 3 false) ++ replicate 7 (access 2 false))

pops_result :
    ((run 2 (start zeros) pops).pc 3 ≡ idle (popped 11))
    × ((run 2 (start zeros) pops).pc 2 ≡ idle (popped 10))
    × ((run 2 (start zeros) (pops ++ (call_pop 2 ∷ replicate 2 (access 2 false)))).pc 2
        ≡ idle empty)
unfolding run create
pops_result = (refl, refl, refl)

-- Thread 3 is about to reply 11, and thread 2 to claim the next item.
abbrev mid_pop : List (Choice ℕ)
mid_pop =
    two_pushes
    ++ (call_pop 3 ∷ replicate 4 (access 3 false) ++ (call_pop 2 ∷ replicate 2 (access 2 false)))

mid_pop_result :
    ((run 2 (start zeros) mid_pop).pc 3 ≡ pop_release 11 0)
    × ((run 2 (start zeros) mid_pop).pc 2 ≡ pop_claim 1)
unfolding run create
mid_pop_result = (refl, refl)

run-QueueStep_example :
    let s = run 2 (start zeros) mid_pop in
    QueueStep 2
      (effect s (access 2 false))
      (queue s.ring)
      (queue (choose 2 s (access 2 false)).ring)
    × ((t pos v : ℕ)
        → s.pc t ≡ pop_release v pos
        → (pos < s.ring.dequeue_pos) × (get_elem? s.ring.history pos ≡ some v))
unfolding run create
run-QueueStep_example = run-QueueStep 2 zeros mid_pop (access 2 false) (omega arith) (omega arith)

run_delivers_example : Delivered (run 2 (start zeros) pops)
unfolding run create
run_delivers_example = run_delivers 2 zeros pops (omega arith) (omega arith)

-- Thread 0 has claimed the first cell and stalls; thread 1 has pushed; a pop still finds nothing.
abbrev stalled : List (Choice ℕ)
stalled =
    call_push 0 10 ∷ replicate 3 (access 0 false)
    ++ (call_push 1 11 ∷ replicate 5 (access 1 false))
    ++ (call_pop 2 ∷ replicate 2 (access 2 false))

stalled_pop_is_empty :
    ((run 2 (start zeros) stalled).pc 1 ≡ idle pushed)
    × ((run 2 (start zeros) stalled).pc 2 ≡ idle empty)
    × (queue (run 2 (start zeros) stalled).ring ≡ 10 ∷ 11 ∷ [])
unfolding run create
stalled_pop_is_empty = (refl, refl, refl)
