-- ===== src/Serialization/Replies.antt =====
-- The same for batches of results, of which only part of the fields is sent.
use aether_mo_e.Common.{
  ℕ, ◌^◌, ◌<◌, ◌≡◌, ◌∙◌, sym, ap, subst, List, [], ◌∷◌, ◌++◌, map, length, take, append_assoc,
  append-nil, ok, err, truncated, All, false,
}
use aether_mo_e.RoutedToken.{RoutedResult, no_reason}
use aether_mo_e.Serialization.{
  le_bytes, ◌>>=◌, pure, put_result, put_results, encode_result_batch, decode_result_batch,
  get_result, get_u32, get_u64, get_floats, get_many, read_all,
}
use aether_mo_e.Serialization.Readers.{
  Exact, >>=-Exact, pure-Exact, get_u32-Exact, get_u64-Exact, get_floats-Exact, concat,
}
use aether_mo_e.Serialization.RoundTrip.{mod_u32, header_lem, payload_bytes}

-- The fields that are sent fit the C++ types.
pub record IsSendable (t : RoutedResult) : Type 0 where
  pub id : t.token_id < 2 ^ 64
  pub position : t.batch_position < 2 ^ 32
  pub shard : t.processed_by_shard < 2 ^ 32
  pub size : length t.payload < 2 ^ 32
  pub floats : All (λ f. f < 2 ^ 32) t.payload

-- A result as it arrives: what is not sent has its default value.
abbrev pub wire : RoutedResult → RoutedResult
wire t = record t { effective_expert = 0; failed = false; failure_reason = no_reason }

abbrev result_bytes : RoutedResult → List ℕ
result_bytes t =
    le_bytes 8 t.token_id
    ++ (le_bytes 4 t.batch_position ++ (le_bytes 4 t.processed_by_shard ++ payload_bytes t.payload))

get_result-Exact : (t : RoutedResult) → IsSendable t → Exact get_result (result_bytes t) (wire t)
unfolding get_result
get_result-Exact t v =
    >>=-Exact get_u64 _ (le_bytes 8 t.token_id) _ t.token_id (wire t)
      (get_u64-Exact t.token_id v.id)
      (>>=-Exact get_u32 _ (le_bytes 4 t.batch_position) _ t.batch_position (wire t)
        (get_u32-Exact t.batch_position v.position)
        (>>=-Exact get_u32 _ (le_bytes 4 t.processed_by_shard) _ t.processed_by_shard (wire t)
          (get_u32-Exact t.processed_by_shard v.shard)
          (subst
            (λ xs. Exact (get_floats >>= λ p. pure (record (wire t) { payload = p })) xs (wire t))
            (append-nil (payload_bytes t.payload))
            (>>=-Exact get_floats _ (payload_bytes t.payload) [] t.payload (wire t)
              (get_floats-Exact t.payload v.size v.floats) (pure-Exact (wire t))))))

put_result_lem :
    (buf : List ℕ) (t : RoutedResult) → IsSendable t → put_result buf t ≡ buf ++ result_bytes t
unfolding put_result
put_result_lem buf t v = rw (mod_u32 (length t.payload) v.size) (simp append_assoc)

put_results_lem :
    (buf : List ℕ) (ts : List RoutedResult)
    → All IsSendable ts
    → put_results buf ts ≡ buf ++ concat result_bytes ts
unfolding put_results
put_results_lem buf [] h = sym (append-nil buf)
put_results_lem buf (t ∷ ts) h =
    put_results_lem (put_result buf t) ts h.1
    ∙ ap (λ b. b ++ concat result_bytes ts) (put_result_lem buf t h.0)
    ∙ append_assoc buf (result_bytes t) (concat result_bytes ts)

get_results-Exact :
    (ts : List RoutedResult)
    → All IsSendable ts
    → Exact (get_many get_result (length ts)) (concat result_bytes ts) (map wire ts)
unfolding get_many
get_results-Exact [] h = pure-Exact []
get_results-Exact (t ∷ ts) h =
    >>=-Exact get_result _ (result_bytes t) (concat result_bytes ts) (wire t) (wire t ∷ map wire ts)
      (get_result-Exact t h.0)
      (subst
        (λ ys.
          Exact (get_many get_result (length ts) >>= λ us. pure (wire t ∷ us)) ys
            (wire t ∷ map wire ts))
        (append-nil (concat result_bytes ts))
        (>>=-Exact (get_many get_result (length ts)) _ (concat result_bytes ts) [] (map wire ts)
          (wire t ∷ map wire ts) (get_results-Exact ts h.1) (pure-Exact (wire t ∷ map wire ts))))

results-Exact :
    (ts : List RoutedResult)
    → length ts < 2 ^ 32
    → All IsSendable ts
    → Exact (get_u32 >>= get_many get_result) (encode_result_batch ts) (map wire ts)
unfolding encode_result_batch
results-Exact ts short h =
    rw (header_lem (length ts) short, put_results_lem (le_bytes 4 (length ts)) ts h)
      (>>=-Exact get_u32 _ (le_bytes 4 (length ts)) _ (length ts) (map wire ts)
        (get_u32-Exact (length ts) short) (get_results-Exact ts h))

-- A batch of fewer than 2 ^ 32 results, whose fields fit their types, is decoded with its ids,
-- positions, shards and payloads, and with default values for what is not sent; bytes that follow
-- it are ignored.
pub decode-encode_result_batch :
    (ts : List RoutedResult) (rest : List ℕ)
    → length ts < 2 ^ 32
    → All IsSendable ts
    → decode_result_batch (encode_result_batch ts ++ rest) ≡ ok (map wire ts)
unfolding decode_result_batch
decode-encode_result_batch ts rest short h = ap read_all ((results-Exact ts short h).full rest)

-- Such a batch that is cut anywhere is refused as truncated.
pub decode-take-encode_result_batch :
    (ts : List RoutedResult) (n : ℕ)
    → length ts < 2 ^ 32
    → All IsSendable ts
    → n < length (encode_result_batch ts)
    → decode_result_batch (take n (encode_result_batch ts)) ≡ err truncated
unfolding decode_result_batch
decode-take-encode_result_batch ts n short h early =
    ap read_all ((results-Exact ts short h).cut n early)
