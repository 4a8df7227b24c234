-- ===== src/Serialization/Tests.antt =====
-- One token and one result as bytes.
use aether_mo_e.Common.{◌++◌, ◌≡◌, refl, [], ◌∷◌, take, arith, ok, err, truncated, true}
use aether_mo_e.RoutedToken.{RoutedToken, RoutedResult, missing_result}
use aether_mo_e.Serialization.{
  encode_token_batch, decode_token_batch, encode_result_batch, decode_result_batch,
}
use aether_mo_e.Serialization.RoundTrip.{decode-encode_token_batch, decode-take-encode_token_batch}
use aether_mo_e.Serialization.Replies.{
  wire, decode-encode_result_batch, decode-take-encode_result_batch,
}

abbrev token : RoutedToken
token = record {
  token_id = 258;
  batch_position = 1;
  primary_expert = 2;
  secondary_expert = 3;
  payload = 0x3f800000 ∷ [];
}

abbrev reply : RoutedResult
reply = record {
  token_id = 258;
  batch_position = 1;
  processed_by_shard = 4;
  effective_expert = 2;
  payload = 0xbf800000 ∷ [];
  failed = true;
  failure_reason = missing_result 4;
}

encode-token :
    encode_token_batch (token ∷ [])
    ≡ 1 ∷ 0 ∷ 0 ∷ 0 ∷ 2 ∷ 1 ∷ 0 ∷ 0 ∷ 0 ∷ 0 ∷ 0 ∷ 0 ∷ 1 ∷ 0 ∷ 0 ∷ 0 ∷ 2 ∷ 0 ∷ 0 ∷ 0 ∷ 3 ∷ 0 ∷ 0 ∷ 0
      ∷ 1 ∷ 0 ∷ 0 ∷ 0 ∷ 0 ∷ 0 ∷ 128 ∷ 63 ∷ []
unfolding encode_token_batch
encode-token = refl

decode_of_nothing : decode_token_batch [] ≡ err truncated
unfolding decode_token_batch
decode_of_nothing = refl

decode-encode_token_batch_example :
    decode_token_batch (encode_token_batch (token ∷ token ∷ []) ++ 7 ∷ []) ≡ ok (token ∷ token ∷ [])
decode-encode_token_batch_example =
    decode-encode_token_batch (token ∷ token ∷ []) (7 ∷ []) (omega arith) (omega arith)

decode-take-encode_token_batch_example :
    decode_token_batch (take 31 (encode_token_batch (token ∷ []))) ≡ err truncated
unfolding encode_token_batch
decode-take-encode_token_batch_example =
    decode-take-encode_token_batch (token ∷ []) 31 (omega arith) (omega arith) (omega arith)

decode-encode_result_batch_example :
    decode_result_batch (encode_result_batch (reply ∷ []) ++ []) ≡ ok (wire reply ∷ [])
decode-encode_result_batch_example =
    decode-encode_result_batch (reply ∷ []) [] (omega arith) (omega arith)

decode-take-encode_result_batch_example :
    decode_result_batch (take 9 (encode_result_batch (reply ∷ []))) ≡ err truncated
unfolding encode_result_batch
decode-take-encode_result_batch_example =
    decode-take-encode_result_batch (reply ∷ []) 9 (omega arith) (omega arith) (omega arith)
