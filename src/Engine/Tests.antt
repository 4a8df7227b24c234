-- ===== src/Engine/Tests.antt =====
-- One request from the handler to its end, with a small stand-in for the JSON library.
use aether_mo_e.Common.{
  ℕ, lookup, insert, ◌+◌, ◌≤◌, ◌≡◌, refl, false, List, [], ◌∷◌, length, map, Option, none, some,
  Result, ok, err, ◌>>=◌, Returns, arith, count,
}
use aether_mo_e.PageTable
use aether_mo_e.PageTable.{blocks_of, ensure_capacity, free_sequence}
use aether_mo_e.Sequence.{prefill, finished, transition_to}
use aether_mo_e.Scheduler.Measures.{with_id, ended}
use aether_mo_e.Scheduler.Steps.{queued}
use aether_mo_e.Ingress.{
  Json, Response, accepted, healthy, invalid_json, missing_prompt_tokens, status_is, unknown_seq_id,
  queue_capacity,
}
use aether_mo_e.Engine.{Engine, Event, generate, push, record_next, probe, asks, main, boot, run}
use aether_mo_e.Engine.Books.{accepts}
use aether_mo_e.Engine.Service.{run_serves}

-- A request is the number of new tokens and the prompt.
abbrev parse_numbers : List ℕ → Option (List ℕ)
parse_numbers [] = none
parse_numbers (n ∷ prompt) = some (n ∷ prompt)

abbrev prompt_of : List ℕ → Option (List (List ℕ))
prompt_of [] = none
prompt_of (n ∷ []) = none
prompt_of (n ∷ t ∷ ts) = some (map (λ x. x ∷ []) (t ∷ ts))

abbrev first_number : List ℕ → Option ℕ
first_number [] = none
first_number (n ∷ ns) = some n

abbrev numbers : Json (List ℕ)
numbers = record {
  parse = parse_numbers;
  prompt_tokens = prompt_of;
  get_uint32 = first_number;
  value_max_new_tokens = λ body default. first_number body;
}

abbrev clock : ℕ → ℕ
clock n = 100 + n

-- The handler is slow: it records its request when the sequence has finished.
abbrev history : List Event
history =
    probe
    ∷ generate [] 1
    ∷ generate (1 ∷ []) 2
    ∷ generate (1 ∷ 50 ∷ []) 3
    ∷ push 0 false
    ∷ asks (1 ∷ [])
    ∷ main false
    ∷ main false
    ∷ main false
    ∷ main false
    ∷ main false
    ∷ main false
    ∷ main false
    ∷ asks (1 ∷ [])
    ∷ record_next 0
    ∷ asks (1 ∷ [])
    ∷ []

abbrev responses_after : Result Engine → List Response
responses_after (ok e) = e.ingress.responses
responses_after (err e) = []

-- The status goes back from finished to prefill.
history_replies :
    responses_after (boot >>= λ e. run numbers clock e history)
    ≡ healthy
      ∷ invalid_json
      ∷ missing_prompt_tokens
      ∷ unknown_seq_id
      ∷ status_is 1 (record { phase = finished; generated_count = 0 })
      ∷ accepted 1
      ∷ status_is 1 (record { phase = prefill; generated_count = 0 })
      ∷ []
unfolding run boot PageTable.create ensure_capacity free_sequence transition_to lookup insert
history_replies = refl

run_serves_example : Returns (boot >>= λ e. run numbers clock e history) (λ e.
    ((k : ℕ)
      → (accepts k e.ingress.responses + count k e.ingress.recording
          ≡ with_id k e.ingress.queue
            + with_id k (queued e.trace.scheduler)
            + ended k e.trace.results)
        × (accepts k e.ingress.responses + count k e.ingress.recording ≤ 1)
        × (with_id k (queued e.trace.scheduler) ≡ 0
            → blocks_of e.trace.scheduler.page_table k ≡ []))
    × (length e.ingress.queue ≤ queue_capacity))
run_serves_example = run_serves numbers clock history (omega arith)
