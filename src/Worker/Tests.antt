-- ===== src/Worker/Tests.antt =====
-- A worker of shard 4 and a router that sends one token twice.
use aether_mo_e.Common.{
  ◌≡◌, refl, [], ◌∷◌, ◌++◌, arith, take, some, none, ok, true, false, map, truncated,
}
use aether_mo_e.RoutedToken.{RoutedToken, no_reason}
use aether_mo_e.Serialization.{encode_token_batch, decode_token_batch, decode_result_batch}
use aether_mo_e.Worker.{Round, Served, ended, escaped, running, reply, run_worker_loop}
use aether_mo_e.Worker.Session.{
  IsBatch, round, decode-reply, run_worker_loop-ended, run_worker_loop-escaped,
}

abbrev token : RoutedToken
token = record {
  token_id = 12;
  batch_position = 0;
  primary_expert = 2;
  secondary_expert = 3;
  payload = 0x3f800000 ∷ [];
}

token-IsBatch : IsBatch (token ∷ [])
token-IsBatch = record { size = omega arith; each = omega arith }

abbrev nothing : Served
nothing = record { batches_processed = 0; replies = [] }

abbrev closed : Round
closed = record { received = none; is_sent = true }

abbrev cut : Round
cut = record { received = some (take 9 (encode_token_batch (token ∷ []))); is_sent = true }

still_running :
    run_worker_loop 4 (round (token ∷ []) ∷ []) nothing
    ≡ running (record { batches_processed = 1; replies = reply 4 (token ∷ []) ∷ [] })
unfolding run_worker_loop encode_token_batch decode_token_batch
still_running = refl

decode-reply_example :
    decode_result_batch (reply 4 (token ∷ []))
    ≡ ok (
        record {
          token_id = 12;
          batch_position = 0;
          processed_by_shard = 4;
          effective_expert = 0;
          payload = 0xbf800000 ∷ [];
          failed = false;
          failure_reason = no_reason;
        }
        ∷ [])
decode-reply_example = decode-reply (token ∷ []) 4 token-IsBatch (omega arith)

run_worker_loop-ended_example :
    run_worker_loop 4 (map round ((token ∷ []) ∷ (token ∷ []) ∷ []) ++ (closed ∷ [])) nothing
    ≡ ended (record {
      batches_processed = 2;
      replies = map (reply 4) ((token ∷ []) ∷ (token ∷ []) ∷ []);
    })
run_worker_loop-ended_example =
    run_worker_loop-ended 4 ((token ∷ []) ∷ (token ∷ []) ∷ []) nothing closed []
      (token-IsBatch, (token-IsBatch, tt)) refl

run_worker_loop-escaped_example : run_worker_loop 4 (cut ∷ []) nothing ≡ escaped truncated
unfolding encode_token_batch
run_worker_loop-escaped_example =
    run_worker_loop-escaped 4 9 (token ∷ []) nothing cut [] token-IsBatch (omega arith) refl
