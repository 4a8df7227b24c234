-- ===== src/Serialization.antt =====
-- src/orchestration/serialization.hpp: batches of tokens and results as bytes.
-- The host is little-endian (Apple silicon, x86-64), so memcpy of an integer gives its low byte first.
-- Memory is not limited: `resize` and `reserve` succeed.
pub mod Readers
pub mod RoundTrip
pub mod Replies
mod Tests
use aether_mo_e.Common.{
  ℕ, zero, suc, ◌+◌, ◌*◌, ◌/◌, ◌%◌, ◌^◌, Bool, true, false, List, [], ◌∷◌, ◌++◌, ltb, if◌then◌else◌,
  length, take, drop, Result, ok, err, truncated,
}
use aether_mo_e.RoutedToken.{RoutedToken, RoutedResult, no_reason}

-- The `n` bytes of an integer in memory, and the integer of some bytes.
abbrev pub le_bytes : ℕ → ℕ → List ℕ
le_bytes zero v = []
le_bytes (suc n) v = (v % 256) ∷ le_bytes n (v / 256)

abbrev pub le_value : List ℕ → ℕ
le_value [] = 0
le_value (b ∷ bs) = b + 256 * le_value bs

pub put_u32 : List ℕ → ℕ → List ℕ
put_u32 buf v = buf ++ le_bytes 4 v

pub put_u64 : List ℕ → ℕ → List ℕ
put_u64 buf v = buf ++ le_bytes 8 v

-- The elements of a float vector in memory.
abbrev pub float_bytes : List ℕ → List ℕ
float_bytes [] = []
float_bytes (f ∷ fs) = le_bytes 4 f ++ float_bytes fs

pub put_floats : List ℕ → List ℕ → List ℕ
unfolding put_u32
put_floats buf fs = put_u32 buf (length fs % 2 ^ 32) ++ float_bytes fs

-- A member of `Reader`: it takes bytes from the front, or throws.
abbrev pub Reader {ℓ} : Type ℓ → Type ℓ
Reader A = List ℕ → Result (A × List ℕ)

infixl 5 ◌>>=◌
abbrev pub ◌>>=◌ {ℓ κ} : {A : Type ℓ} {B : Type κ} → Reader A → (A → Reader B) → Reader B
◌>>=◌ m f r = elim (m r) [ err e ↦ err e | ok (a, r') ↦ f a r' ]

abbrev pub pure {ℓ} : {A : Type ℓ} → A → Reader A
pure a r = ok (a, r)

-- `need(n)`, and then the next `n` bytes.
pub get_bytes : ℕ → Reader (List ℕ)
get_bytes n r = if ltb (length r) n then err truncated else ok (take n r, drop n r)

pub get_u32 : Reader ℕ
unfolding get_bytes
get_u32 = do bs ← get_bytes 4; pure (le_value bs)

pub get_u64 : Reader ℕ
unfolding get_bytes
get_u64 = do bs ← get_bytes 8; pure (le_value bs)

-- The vector of `n` floats that `memcpy` fills.
abbrev pub floats_of : ℕ → List ℕ → List ℕ
floats_of zero bs = []
floats_of (suc n) bs = le_value (take 4 bs) ∷ floats_of n (drop 4 bs)

pub get_floats : Reader (List ℕ)
unfolding get_u32 get_bytes
get_floats = do n ← get_u32; bs ← get_bytes (n * 4); pure (floats_of n bs)

-- The bodies of the loops of `encode_token_batch` and `encode_result_batch`.
put_token : List ℕ → RoutedToken → List ℕ
unfolding put_u64 put_u32 put_floats
put_token buf t =
    put_floats
      (put_u32 (put_u32 (put_u32 (put_u64 buf t.token_id) t.batch_position) t.primary_expert)
        t.secondary_expert)
      t.payload

put_tokens : List ℕ → List RoutedToken → List ℕ
unfolding put_token
put_tokens buf [] = buf
put_tokens buf (t ∷ ts) = put_tokens (put_token buf t) ts

unfoldable pub encode_token_batch : List RoutedToken → List ℕ
unfolding put_tokens put_u32
encode_token_batch tokens = put_tokens (put_u32 [] (length tokens % 2 ^ 32)) tokens

get_token : Reader RoutedToken
unfolding get_u64 get_u32 get_floats
get_token = do
  token_id ← get_u64
  batch_position ← get_u32
  primary_expert ← get_u32
  secondary_expert ← get_u32
  payload ← get_floats
  pure (record {
    token_id = token_id;
    batch_position = batch_position;
    primary_expert = primary_expert;
    secondary_expert = secondary_expert;
    payload = payload;
  })

-- `for (i < count) out.push_back(…)`
pub get_many : {A : Type 0} → Reader A → ℕ → Reader (List A)
get_many get zero = pure []
get_many get (suc n) = do x ← get; xs ← get_many get n; pure (x ∷ xs)

-- What is read, without the rest of the bytes, which `decode_…` ignores.
abbrev pub read_all {ℓ} : {A : Type ℓ} → Result (A × List ℕ) → Result A
read_all (err e) = err e
read_all (ok (a, r)) = ok a

unfoldable pub decode_token_batch : List ℕ → Result (List RoutedToken)
unfolding get_u32 get_token get_many
decode_token_batch bytes = read_all ((do count ← get_u32; get_many get_token count) bytes)

put_result : List ℕ → RoutedResult → List ℕ
unfolding put_u64 put_u32 put_floats
put_result buf t =
    put_floats (put_u32 (put_u32 (put_u64 buf t.token_id) t.batch_position) t.processed_by_shard)
      t.payload

put_results : List ℕ → List RoutedResult → List ℕ
unfolding put_result
put_results buf [] = buf
put_results buf (t ∷ ts) = put_results (put_result buf t) ts

unfoldable pub encode_result_batch : List RoutedResult → List ℕ
unfolding put_results put_u32
encode_result_batch results = put_results (put_u32 [] (length results % 2 ^ 32)) results

-- The fields that are not sent have their default values.
get_result : Reader RoutedResult
unfolding get_u64 get_u32 get_floats
get_result = do
  token_id ← get_u64
  batch_position ← get_u32
  processed_by_shard ← get_u32
  payload ← get_floats
  pure (record {
    token_id = token_id;
    batch_position = batch_position;
    processed_by_shard = processed_by_shard;
    effective_expert = 0;
    payload = payload;
    failed = false;
    failure_reason = no_reason;
  })

unfoldable pub decode_result_batch : List ℕ → Result (List RoutedResult)
unfolding get_u32 get_result get_many
decode_result_batch bytes = read_all ((do count ← get_u32; get_many get_result count) bytes)
