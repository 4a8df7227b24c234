-- ===== src/Sequence.antt =====
-- src/core/sequence.hpp: a request and its phase machine.
-- Times are readings of the steady clock, in nanoseconds; the constructor's reading is an argument.
pub mod Phases
mod Tests
use aether_mo_e.Common.{
  ℕ, zero, suc, ◌+◌, Bool, true, false, List, [], ◌∷◌, leb, if◌then◌else◌, length, Result, ok, err,
  illegal_transition,
}

pub data SequencePhase : Type 0 where
  prefill decode finished : SequencePhase

-- `static_cast<size_t>(phase)`
abbrev pub index : SequencePhase → ℕ
index prefill = 0
index decode = 1
index finished = 2

pub record Sequence : Type 0 where
  pub id : ℕ
  pub phase : SequencePhase
  pub prompt_tokens : List ℕ
  pub generated_tokens : List ℕ
  pub max_new_tokens : ℕ
  pub prefill_cursor : ℕ
  pub owned_blocks : List ℕ
  pub admitted_at : ℕ
  pub last_decode_at : ℕ

unfoldable pub create : ℕ → List ℕ → ℕ → ℕ → Sequence
create seq_id prompt max_new now = record {
  id = seq_id;
  phase = prefill;
  prompt_tokens = prompt;
  generated_tokens = [];
  max_new_tokens = max_new;
  prefill_cursor = 0;
  owned_blocks = [];
  admitted_at = now;
  last_decode_at = 0;
}

abbrev pub prefill_complete : Sequence → Bool
prefill_complete s = leb (length s.prompt_tokens) s.prefill_cursor

abbrev pub total_tokens : Sequence → ℕ
total_tokens s = length s.prompt_tokens + length s.generated_tokens

-- The rows of the table `legal`, by the phase left; the columns are the phase entered.
legal : SequencePhase → SequencePhase → Bool
legal prefill prefill = true
legal prefill decode = true
legal prefill finished = true
legal decode prefill = false
legal decode decode = true
legal decode finished = true
legal finished prefill = false
legal finished decode = false
legal finished finished = true

unfoldable pub transition_to : Sequence → SequencePhase → Result Sequence
unfolding legal
transition_to s next =
    if legal s.phase next
    then ok (record s { phase = next })
    else err (illegal_transition (index s.phase) (index next))

-- A series of transitions; the first that is refused throws.
pub transitions : Sequence → List SequencePhase → Result Sequence
unfolding transition_to
transitions s [] = ok s
transitions s (p ∷ ps) = elim (transition_to s p) [ ok s' ↦ transitions s' ps | err e ↦ err e ]
