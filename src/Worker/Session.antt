-- ===== src/Worker/Session.antt =====
-- A session of a worker with a router that sends well-formed batches.
use aether_mo_e.Common.{
  ℕ, ◌+◌, ◌%◌, ◌^◌, ◌<◌, ◌≡◌, refl, sym, ◌∙◌, ap, arith, true, false, List, [], ◌∷◌, ◌++◌, map,
  none, some, length, length-map, append-nil, append_assoc, All, ok, take, truncated,
}
use aether_mo_e.RoutedToken.{RoutedToken, RoutedResult, no_reason}
use aether_mo_e.Serialization.{
  encode_token_batch, decode_token_batch, encode_result_batch, decode_result_batch,
}
use aether_mo_e.Serialization.RoundTrip.{
  IsToken, decode-encode_token_batch, decode-take-encode_token_batch,
}
use aether_mo_e.Serialization.Replies.{IsSendable, wire, decode-encode_result_batch}
use aether_mo_e.Worker.{
  negate, process_token_placeholder, Round, Served, ended, escaped, reply, run_worker_loop,
}

-- A batch that can be sent.
pub record IsBatch (tokens : List RoutedToken) : Type 0 where
  pub size : length tokens < 2 ^ 32
  pub each : All IsToken tokens

negate-fits : (fs : List ℕ) → All (λ f. f < 2 ^ 32) (map negate fs)
negate-fits [] = tt
negate-fits (f ∷ fs) = (omega arith, negate-fits fs)

result-IsSendable :
    (t : RoutedToken) (shard_id : ℕ)
    → IsToken t
    → shard_id < 2 ^ 32
    → IsSendable (process_token_placeholder t shard_id)
unfolding process_token_placeholder
result-IsSendable t shard_id v h = record {
  id = v.id;
  position = v.position;
  shard = h;
  size = omega (arith, length-map negate t.payload, v.size);
  floats = negate-fits t.payload;
}

results-IsSendable :
    (ts : List RoutedToken) (shard_id : ℕ)
    → All IsToken ts
    → shard_id < 2 ^ 32
    → All IsSendable (map (λ t. process_token_placeholder t shard_id) ts)
results-IsSendable [] shard_id v h = tt
results-IsSendable (t ∷ ts) shard_id v h =
    (result-IsSendable t shard_id v.0 h, results-IsSendable ts shard_id v.1 h)

wire_results :
    (ts : List RoutedToken) (shard_id : ℕ)
    → map wire (map (λ t. process_token_placeholder t shard_id) ts)
      ≡ map (λ t. process_token_placeholder t shard_id) ts
unfolding process_token_placeholder
wire_results [] shard_id = refl
wire_results (t ∷ ts) shard_id =
    ap (λ rs. process_token_placeholder t shard_id ∷ rs) (wire_results ts shard_id)

-- The router decodes the reply to a batch that can be sent as one result for each token, in the
-- order of the batch. A result has the id and the batch position of its token, names this shard as the
-- one that processed it, is not a failure, and has the token's payload with every sign bit flipped.
pub decode-reply :
    (tokens : List RoutedToken) (shard_id : ℕ)
    → IsBatch tokens
    → shard_id < 2 ^ 32
    → decode_result_batch (reply shard_id tokens)
      ≡ ok (
          map
            (λ (t : RoutedToken). record {
              token_id = t.token_id;
              batch_position = t.batch_position;
              processed_by_shard = shard_id;
              effective_expert = 0;
              payload = map (λ f. (f + 2 ^ 31) % 2 ^ 32) t.payload;
              failed = false;
              failure_reason = no_reason;
            })
            tokens)
unfolding reply process_token_placeholder
decode-reply tokens shard_id v h =
    let results : List RoutedResult = map (λ t. process_token_placeholder t shard_id) tokens in
    ap decode_result_batch (sym (append-nil (encode_result_batch results)))
    ∙ decode-encode_result_batch results []
        (omega (arith, length-map (λ t. process_token_placeholder t shard_id) tokens, v.size))
        (results-IsSendable tokens shard_id v.each h)
    ∙ ap ok (wire_results tokens shard_id)

-- A round in which a batch arrives and the reply is taken.
abbrev pub round : List RoutedToken → Round
round tokens = record { received = some (encode_token_batch tokens); is_sent = true }

decode_exact :
    (tokens : List RoutedToken)
    → IsBatch tokens
    → decode_token_batch (encode_token_batch tokens) ≡ ok tokens
decode_exact tokens v =
    ap decode_token_batch (sym (append-nil (encode_token_batch tokens)))
    ∙ decode-encode_token_batch tokens [] v.size v.each

ended_same :
    {n m : ℕ} {xs ys : List (List ℕ)}
    → n ≡ m
    → xs ≡ ys
    → ended (record { batches_processed = n; replies = xs })
      ≡ ended (record { batches_processed = m; replies = ys })
ended_same e f = rw (e, f) refl

-- If every message is a batch that can be sent and every reply is taken, until receive throws, then
-- the loop ends: it has counted every batch and has replied to each in turn, once.
pub run_worker_loop-ended :
    (shard_id : ℕ) (batches : List (List RoutedToken)) (s : Served) (last : Round) (rs : List Round)
    → All IsBatch batches
    → last.received ≡ none
    → run_worker_loop shard_id (map round batches ++ (last ∷ rs)) s
      ≡ ended (record {
        batches_processed = s.batches_processed + length batches;
        replies = s.replies ++ map (reply shard_id) batches;
      })
unfolding run_worker_loop
run_worker_loop-ended shard_id [] s last rs v e =
    rw (e) (ended_same (omega arith) (sym (append-nil s.replies)))
run_worker_loop-ended shard_id (b ∷ bs) s last rs v e =
    rw (run_worker_loop, decode_exact b v.0)
      (run_worker_loop-ended shard_id bs
          (record {
            batches_processed = s.batches_processed + 1;
            replies = s.replies ++ (reply shard_id b ∷ []);
          })
          last rs v.1 e
        ∙ ended_same (omega arith)
            (append_assoc s.replies (reply shard_id b ∷ []) (map (reply shard_id) bs)))

-- A message that is a batch cut anywhere ends the loop by an exception that it does not catch: only
-- what receive and send throw is taken for the end of the session.
pub run_worker_loop-escaped :
    (shard_id n : ℕ) (tokens : List RoutedToken) (s : Served) (r : Round) (rs : List Round)
    → IsBatch tokens
    → n < length (encode_token_batch tokens)
    → r.received ≡ some (take n (encode_token_batch tokens))
    → run_worker_loop shard_id (r ∷ rs) s ≡ escaped truncated
unfolding run_worker_loop
run_worker_loop-escaped shard_id n tokens s r rs v h e =
    rw (e, decode-take-encode_token_batch tokens n v.size v.each h) refl
