-- ===== src/Serialization/RoundTrip.antt =====
-- What encode_… writes, decode_… reads back, and a message that is cut short is refused.
use aether_mo_e.Common.{
  ℕ, ◌^◌, ◌%◌, ◌<◌, ◌≡◌, ◌∙◌, sym, ap, subst, List, [], ◌∷◌, ◌++◌, arith, length, take,
  append_assoc, append-nil, ok, err, truncated, All,
}
use aether_mo_e.RoutedToken.{RoutedToken}
use aether_mo_e.Serialization.{
  le_bytes, float_bytes, ◌>>=◌, pure, put_u32, put_token, put_tokens, encode_token_batch,
  decode_token_batch, get_token, get_u32, get_u64, get_floats, get_many, read_all,
}
use aether_mo_e.Serialization.Readers.{
  Exact, >>=-Exact, pure-Exact, get_u32-Exact, get_u64-Exact, get_floats-Exact, get_many-Exact,
  concat,
}

-- The fields of a token fit the C++ types.
pub record IsToken (t : RoutedToken) : Type 0 where
  pub id : t.token_id < 2 ^ 64
  pub position : t.batch_position < 2 ^ 32
  pub primary : t.primary_expert < 2 ^ 32
  pub secondary : t.secondary_expert < 2 ^ 32
  pub size : length t.payload < 2 ^ 32
  pub floats : All (λ f. f < 2 ^ 32) t.payload

abbrev pub payload_bytes : List ℕ → List ℕ
payload_bytes fs = le_bytes 4 (length fs) ++ float_bytes fs

abbrev token_bytes : RoutedToken → List ℕ
token_bytes t =
    le_bytes 8 t.token_id
    ++ (le_bytes 4 t.batch_position
        ++ (le_bytes 4 t.primary_expert
            ++ (le_bytes 4 t.secondary_expert ++ payload_bytes t.payload)))

get_token-Exact : (t : RoutedToken) → IsToken t → Exact get_token (token_bytes t) t
unfolding get_token
get_token-Exact t v =
    >>=-Exact get_u64 _ (le_bytes 8 t.token_id) _ t.token_id t (get_u64-Exact t.token_id v.id) (
      >>=-Exact get_u32 _ (le_bytes 4 t.batch_position) _ t.batch_position t
        (get_u32-Exact t.batch_position v.position)
        (>>=-Exact get_u32 _ (le_bytes 4 t.primary_expert) _ t.primary_expert t
          (get_u32-Exact t.primary_expert v.primary)
          (>>=-Exact get_u32 _ (le_bytes 4 t.secondary_expert) _ t.secondary_expert t
            (get_u32-Exact t.secondary_expert v.secondary) (last t.payload v.size v.floats))))
  where
    last :
        (fs : List ℕ)
        → length fs < 2 ^ 32
        → All (λ f. f < 2 ^ 32) fs
        → Exact
            (get_floats >>= λ p. pure (record t { payload = p }))
            (payload_bytes fs)
            (record t { payload = fs })
    last fs short h =
        subst
          (λ xs.
            Exact (get_floats >>= λ p. pure (record t { payload = p })) xs
              (record t { payload = fs }))
          (append-nil (payload_bytes fs))
          (>>=-Exact get_floats _ (payload_bytes fs) [] fs (record t { payload = fs })
            (get_floats-Exact fs short h) (pure-Exact (record t { payload = fs })))

pub mod_u32 : (n : ℕ) → n < 2 ^ 32 → n % 2 ^ 32 ≡ n
mod_u32 n h = omega arith

put_token_lem :
    (buf : List ℕ) (t : RoutedToken) → IsToken t → put_token buf t ≡ buf ++ token_bytes t
unfolding put_token
put_token_lem buf t v = rw (mod_u32 (length t.payload) v.size) (simp append_assoc)

put_tokens_lem :
    (buf : List ℕ) (ts : List RoutedToken)
    → All IsToken ts
    → put_tokens buf ts ≡ buf ++ concat token_bytes ts
unfolding put_tokens
put_tokens_lem buf [] h = sym (append-nil buf)
put_tokens_lem buf (t ∷ ts) h =
    put_tokens_lem (put_token buf t) ts h.1
    ∙ ap (λ b. b ++ concat token_bytes ts) (put_token_lem buf t h.0)
    ∙ append_assoc buf (token_bytes t) (concat token_bytes ts)

pub header_lem : (n : ℕ) → n < 2 ^ 32 → put_u32 [] (n % 2 ^ 32) ≡ le_bytes 4 n
unfolding put_u32
header_lem n h = rw (mod_u32 n h)

tokens-Exact :
    (ts : List RoutedToken)
    → length ts < 2 ^ 32
    → All IsToken ts
    → Exact (get_u32 >>= get_many get_token) (encode_token_batch ts) ts
unfolding encode_token_batch
tokens-Exact ts short h =
    rw (header_lem (length ts) short, put_tokens_lem (le_bytes 4 (length ts)) ts h)
      (>>=-Exact get_u32 _ (le_bytes 4 (length ts)) _ (length ts) ts
        (get_u32-Exact (length ts) short)
        (get_many-Exact get_token token_bytes IsToken get_token-Exact ts h))

-- A batch of fewer than 2 ^ 32 tokens, whose fields fit their types, is decoded as it was; bytes that
-- follow it are ignored.
pub decode-encode_token_batch :
    (ts : List RoutedToken) (rest : List ℕ)
    → length ts < 2 ^ 32
    → All IsToken ts
    → decode_token_batch (encode_token_batch ts ++ rest) ≡ ok ts
unfolding decode_token_batch
decode-encode_token_batch ts rest short h = ap read_all ((tokens-Exact ts short h).full rest)

-- Such a batch that is cut anywhere is refused as truncated, never decoded as something else.
pub decode-take-encode_token_batch :
    (ts : List RoutedToken) (n : ℕ)
    → length ts < 2 ^ 32
    → All IsToken ts
    → n < length (encode_token_batch ts)
    → decode_token_batch (take n (encode_token_batch ts)) ≡ err truncated
unfolding decode_token_batch
decode-take-encode_token_batch ts n short h early =
    ap read_all ((tokens-Exact ts short h).cut n early)
