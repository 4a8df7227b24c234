-- ===== src/Sequence/Tests.antt =====
-- Transitions of one sequence.
use aether_mo_e.Common.{◌≤◌, ◌≡◌, refl, [], ◌∷◌, err, illegal_transition}
use aether_mo_e.Sequence.{
  prefill, decode, finished, index, Sequence, create, transition_to, transitions,
}
use aether_mo_e.Sequence.Phases.{transition_to_lem, transitions_forward, finished_final}

abbrev request : Sequence
request = create 7 (1 ∷ 2 ∷ []) 16 100

abbrev ended : Sequence
ended = record request { phase = finished }

no_way_back : transition_to ended decode ≡ err (illegal_transition 2 1)
unfolding transition_to
no_way_back = refl

transition_to_example :
    transition_to (record request { phase = decode }) prefill ≡ err (illegal_transition 1 0)
transition_to_example = transition_to_lem (record request { phase = decode }) prefill

transitions_forward_example :
    (index request.phase ≤ 2) × (ended ≡ record request { phase = finished })
unfolding transitions transition_to create
transitions_forward_example = transitions_forward request (decode ∷ decode ∷ finished ∷ []) refl

finished_final_example : ended ≡ ended
unfolding transitions transition_to create
finished_final_example = finished_final ended (finished ∷ []) refl refl
