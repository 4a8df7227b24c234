-- ===== src/Ingress/Tests.antt =====
-- Single handlers on small inputs.
use aether_mo_e.Common.{◌≡◌, refl, map, [], ◌∷◌, some, lookup}
use aether_mo_e.Sequence.{prefill}
use aether_mo_e.Ingress.{
  Ingress, healthy, thrown, unknown_seq_id, status_is, ingress_server, healthz, status, stop,
  stoull, status_code, queue_full, invalid_json, missing_prompt_tokens,
}

abbrev one_known : Ingress
unfolding ingress_server
one_known = ingress_server [] ((12, record { phase = prefill; generated_count = 0 }) ∷ []) 13

-- An id of more than 64 bits leaves the handler by an exception.
status_replies :
    (status (9 ∷ []) (
      status (0 ∷ 1 ∷ 2 ∷ []) (
        status
          (1 ∷ 8 ∷ 4 ∷ 4 ∷ 6 ∷ 7 ∷ 4 ∷ 4 ∷ 0 ∷ 7 ∷ 3 ∷ 7 ∷ 0 ∷ 9 ∷ 5 ∷ 5 ∷ 1 ∷ 6 ∷ 1 ∷ 6 ∷ [])
          one_known))).responses
    ≡ thrown ∷ status_is 12 (record { phase = prefill; generated_count = 0 }) ∷ unknown_seq_id ∷ []
unfolding status stoull lookup one_known
status_replies = refl

-- The server still answers after stop.
healthz-stop : (healthz (stop one_known)).responses ≡ healthy ∷ []
unfolding healthz stop one_known
healthz-stop = refl

refusals :
    map status_code (invalid_json ∷ missing_prompt_tokens ∷ queue_full ∷ unknown_seq_id ∷ [])
    ≡ some 400 ∷ some 400 ∷ some 503 ∷ some 404 ∷ []
unfolding status_code
refusals = refl
