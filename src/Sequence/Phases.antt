-- ===== src/Sequence/Phases.antt =====
-- The phase machine of sequence.hpp runs one way: PREFILL, DECODE, FINISHED.
use aether_mo_e.Common.{
  ◌≤◌, ◌≡◌, refl, List, [], ◌∷◌, arith, leb, if◌then◌else◌, ok, err, illegal_transition,
}
use aether_mo_e.Sequence.{
  SequencePhase, prefill, decode, finished, index, Sequence, legal, transition_to, transitions,
}

-- A transition is accepted exactly when it does not go back. Then it changes the phase and nothing
-- else; otherwise it throws, and names both phases.
pub transition_to_lem :
    (s : Sequence) (next : SequencePhase)
    → transition_to s next ≡ (
        if leb (index s.phase) (index next)
        then ok (record s { phase = next })
        else err (illegal_transition (index s.phase) (index next)))
unfolding transition_to
transition_to_lem s next = table s.phase next
  where
    table :
        (p q : SequencePhase)
        → (if legal p q
            then ok (record s { phase = q })
            else err (illegal_transition (index p) (index q)))
          ≡ (if leb (index p) (index q)
              then ok (record s { phase = q })
              else err (illegal_transition (index p) (index q)))
    table prefill prefill = refl
    table prefill decode = refl
    table prefill finished = refl
    table decode prefill = refl
    table decode decode = refl
    table decode finished = refl
    table finished prefill = refl
    table finished decode = refl
    table finished finished = refl

-- If a series of transitions is accepted, the phase has not gone back, and nothing else of the
-- sequence has changed.
pub transitions_forward :
    (s : Sequence) (ps : List SequencePhase) {t : Sequence}
    → transitions s ps ≡ ok t
    → (index s.phase ≤ index t.phase) × (t ≡ record s { phase = t.phase })
unfolding transitions
transitions_forward s [] h = ground arith
transitions_forward s (p ∷ ps) {t} h =
    ground (arith, transition_to_lem s p, transitions_forward (record s { phase = p }) ps {t = t})

-- FINISHED is final: whatever transition is accepted there leaves the sequence as it is.
pub finished_final :
    (s : Sequence) (ps : List SequencePhase) {t : Sequence}
    → s.phase ≡ finished
    → transitions s ps ≡ ok t
    → t ≡ s
finished_final s ps {t} e h = ground (arith, transitions_forward s ps h, last t.phase)
  where
    last : (p : SequencePhase) → 2 ≤ index p → p ≡ finished
    last prefill q = absurd (omega arith)
    last decode q = absurd (omega arith)
    last finished q = refl
