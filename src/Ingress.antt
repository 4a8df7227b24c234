-- ===== src/Ingress.antt =====
-- src/api/ingress_server.hpp and ingress_server.cpp: the status table and the handlers.
-- A handler is cut where the other threads can see it: `begin_generate` goes up to the new id,
-- `push_request` is the push to the queue, `record_request` the rest. The JSON library is a parameter.
-- The HTTP library calls the handlers; the one for /status gets the digits that its route matched.
mod Tests
use aether_mo_e.Common.{
  ℕ, zero, suc, ◌+◌, ◌*◌, ◌^◌, Bool, true, false, not, ◌&&◌, ltb, if◌then◌else◌, List, [], ◌∷◌,
  ◌++◌, length, Option, none, some, lookup, insert, size_t,
}
use aether_mo_e.Sequence.{Sequence, SequencePhase, prefill, create}

pub record Status : Type 0 where
  pub phase : SequencePhase
  pub generated_count : ℕ

abbrev pub StatusTable : Type 0
StatusTable = List (ℕ × Status)

abbrev pub upsert : ℕ → SequencePhase → ℕ → StatusTable → StatusTable
upsert seq_id phase generated_count table =
    insert seq_id (record { phase = phase; generated_count = generated_count }) table

abbrev pub get : ℕ → StatusTable → Option Status
get seq_id table = lookup seq_id table

abbrev pub queue_capacity : ℕ
queue_capacity = 4096

-- What the handlers use of the JSON library; `none` where a call throws, or the array is missing.
-- `value_max_new_tokens` is `value` with a default, as the 32-bit pattern of its int.
pub record Json (J : Type 0) : Type 0 where
  pub parse : List ℕ → Option J
  pub prompt_tokens : J → Option (List J)
  pub get_uint32 : J → Option ℕ
  pub value_max_new_tokens : J → ℕ → Option ℕ

-- The responses, with the fields of their bodies.
pub data Response : Type 0 where
  healthy invalid_json missing_prompt_tokens queue_full unknown_seq_id : Response
  -- an exception leaves the handler
  thrown : Response
  accepted : (seq_id : ℕ) → Response
  status_is : (seq_id : ℕ) → Status → Response

-- What a handler puts in `res.status`; where it puts nothing, the HTTP library chooses.
unfoldable pub status_code : Response → Option ℕ
status_code healthy = none
status_code invalid_json = some 400
status_code missing_prompt_tokens = some 400
status_code queue_full = some 503
status_code unknown_seq_id = some 404
status_code thrown = none
status_code (accepted seq_id) = none
status_code (status_is seq_id found) = none

-- What the handlers share with the main thread. `pushing` and `recording` are the requests that
-- handlers hold, between their steps.
pub record Ingress : Type 0 where
  pub queue : List Sequence
  pub status_table : StatusTable
  pub next_seq_id : ℕ
  pub pushing : List Sequence
  pub recording : List ℕ
  pub responses : List Response
  pub stop_requested : Bool

-- The constructor, for a queue, a table and a counter that the caller has.
unfoldable pub ingress_server : List Sequence → StatusTable → ℕ → Ingress
ingress_server queue status_table next_seq_id = record {
  queue = queue;
  status_table = status_table;
  next_seq_id = next_seq_id;
  pushing = [];
  recording = [];
  responses = [];
  stop_requested = false;
}

-- Nothing reads the flag.
unfoldable pub stop : Ingress → Ingress
stop i = record i { stop_requested = true }

abbrev pub respond : Response → Ingress → Ingress
respond r i = record i { responses = i.responses ++ (r ∷ []) }

unfoldable pub healthz : Ingress → Ingress
healthz i = respond healthy i

module _ {J : Type 0} (json : Json J) where
  unfoldable pub read_tokens : List J → Option (List ℕ)
  read_tokens [] = some []
  read_tokens (t ∷ ts) =
      let rest = read_tokens ts in
      elim (json.get_uint32 t) [
        | some token ↦ elim rest [ some tokens ↦ some (token ∷ tokens) | none ↦ none ]
        | none ↦ none
      ]

  -- The fields of a request, or the response to one that is refused.
  unfoldable pub read_fields : J → List J → Option (List ℕ × ℕ)
  unfolding read_tokens
  read_fields body elements = elim (read_tokens elements) [
    | some tokens ↦ elim (json.value_max_new_tokens body 16) [
      | some n ↦ some (tokens, n)
      | none ↦ none
    ]
    | none ↦ none
  ]

  -- The handler from its last check on: a new id, and a new sequence.
  unfoldable pub begin_sequence : ℕ → Ingress → Option (List ℕ × ℕ) → Ingress
  unfolding create
  begin_sequence now i none = respond thrown i
  begin_sequence now i (some fields) = record i {
    next_seq_id = size_t (i.next_seq_id + 1);
    pushing = create i.next_seq_id fields.0 fields.1 now ∷ i.pushing;
  }

  unfoldable pub begin_elements : J → ℕ → Ingress → Option (List J) → Ingress
  unfolding read_fields begin_sequence
  begin_elements body now i none = respond missing_prompt_tokens i
  begin_elements body now i (some elements) = begin_sequence now i (read_fields body elements)

  unfoldable pub begin_body : ℕ → Ingress → Option J → Ingress
  unfolding begin_elements
  begin_body now i none = respond invalid_json i
  begin_body now i (some body) = begin_elements body now i (json.prompt_tokens body)

  unfoldable pub begin_generate : List ℕ → ℕ → Ingress → Ingress
  unfolding begin_body
  begin_generate request now i = begin_body now i (json.parse request)

-- A push that has room can still be refused, when a pop has not finished with the cell.
unfoldable pub push_request : Bool → Sequence → Ingress → Ingress
push_request refused seq i =
    if not refused && ltb (length i.queue) queue_capacity
    then record i { queue = i.queue ++ (seq ∷ []); recording = seq.id ∷ i.recording }
    else respond queue_full i

unfoldable pub record_request : ℕ → Ingress → Ingress
record_request seq_id i =
    respond (accepted seq_id) (record i { status_table = upsert seq_id prefill 0 i.status_table })

-- The answer to a question for the status, by what the table has.
unfoldable pub report : ℕ → Ingress → Option Status → Ingress
report seq_id i none = respond unknown_seq_id i
report seq_id i (some found) = respond (status_is seq_id found) i

-- `std::stoull` of decimal digits: it throws for a number that is out of range.
unfoldable pub value_of : ℕ → List ℕ → ℕ
value_of read [] = read
value_of read (d ∷ ds) = value_of (10 * read + d) ds

unfoldable pub stoull : List ℕ → Option ℕ
unfolding value_of
stoull digits = if ltb (value_of 0 digits) (2 ^ 64) then some (value_of 0 digits) else none

-- The handler, for what `stoull` gave.
unfoldable pub report_id : Ingress → Option ℕ → Ingress
unfolding report
report_id i none = respond thrown i
report_id i (some seq_id) = report seq_id i (get seq_id i.status_table)

unfoldable pub status : List ℕ → Ingress → Ingress
unfolding report_id stoull
status digits i = report_id i (stoull digits)

-- Taking one of the requests in progress from a list: any of them may be the next to go on.
unfoldable pub pick {ℓ} : {A : Type ℓ} → ℕ → List A → Option (A × List A)
pick n [] = none
pick zero (x ∷ xs) = some (x, xs)
pick (suc n) (x ∷ xs) = elim (pick n xs) [ some p ↦ some (p.0, x ∷ p.1) | none ↦ none ]
