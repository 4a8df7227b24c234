-- ===== src/Transport/Lengths.antt =====
-- The length prefix of unix_socket_transport.hpp: eight bytes, the highest first.
use aether_mo_e.Common.{ℕ, ◌^◌, ◌<◌, ◌≡◌, refl, arith, length}
use aether_mo_e.Transport.{encode_length, decode_length}

pub length-encode_length : (n : ℕ) → length (encode_length n) ≡ 8
unfolding encode_length
length-encode_length n = refl

-- The prefix of a length that fits 64 bits is read back as that length.
pub decode-encode_length : (n : ℕ) → n < 2 ^ 64 → decode_length (encode_length n) ≡ n
unfolding encode_length decode_length
decode-encode_length n h = omega arith
