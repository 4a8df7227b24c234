-- ===== src/Transport.antt =====
-- How messages are framed by their length over a byte stream: src/orchestration/unix_socket_transport.hpp.
-- What the system calls return is an argument, a list with one entry for each call in order: the
-- kernel decides how much each call transfers. The stream is the bytes that were written and not
-- read yet. A loop that has used up the list still waits.
pub mod Calls
pub mod Lengths
pub mod Writes
pub mod Reads
pub mod Frames
pub mod Cuts
mod Tests
use aether_mo_e.Common.{
  ℕ, zero, suc, ◌+◌, ◌-◌, ◌*◌, ◌/◌, ◌%◌, ◌^◌, min, Bool, true, false, ◌&&◌, List, [], ◌∷◌, ◌++◌,
  ◌==◌, if◌then◌else◌, length, take, drop,
}

-- `encode_length`: the bytes of `out` from index `n` on are there, those below are written.
encode_from : ℕ → ℕ → List ℕ → List ℕ
encode_from zero v out = out
encode_from (suc n) v out = encode_from n (v / 256) ((v % 256) ∷ out)

unfoldable pub encode_length : ℕ → List ℕ
unfolding encode_from
encode_length len = encode_from 8 (len % 2 ^ 64) []

-- `(v << 8) | in[i]` in `uint64_t`; the low byte of the shifted value is 0, so `|` adds.
decode_from : ℕ → List ℕ → ℕ
decode_from v [] = v
decode_from v (b ∷ bs) = decode_from (v * 256 % 2 ^ 64 + b) bs

unfoldable pub decode_length : List ℕ → ℕ
unfolding decode_from
decode_length header = decode_from 0 header

-- What one call of `::write` or `::read` returns: a byte count, or -1 with errno EINTR or another.
pub data SysReturn : Type 0 where
  count : ℕ → SysReturn
  interrupted : SysReturn
  failed : (errno : ℕ) → SysReturn

-- How an operation ends: with a value, by one of the three exceptions, or not yet.
pub data Outcome (A : Type 0) : Type 0 where
  done : A → Outcome A
  -- PeerClosedError
  peer_closed : Outcome A
  -- "peer closed mid-message"
  mid_message : Outcome A
  io_failed : (errno : ℕ) → Outcome A
  waiting : Outcome A

-- A state of the connection: the calls to come, and the stream.
pub record Wire : Type 0 where
  pub calls : List SysReturn
  pub stream : List ℕ

infixl 5 ◌>>=◌
abbrev pub ◌>>=◌ : {A B : Type 0} → Outcome A → (A → Outcome B) → Outcome B
done a >>= f = f a
peer_closed >>= f = peer_closed
mid_message >>= f = mid_message
io_failed e >>= f = io_failed e
waiting >>= f = waiting

-- `write_all`: `left` is what is not written yet. A call writes no more than it is given.
pub write_all : List SysReturn → List ℕ → List ℕ → Outcome Wire
write_all [] left stream =
    if length left == 0 then done (record { calls = []; stream = stream }) else waiting
write_all (c ∷ cs) left stream =
    if length left == 0 then done (record { calls = c ∷ cs; stream = stream }) else elim c [
      | count n ↦ if n == 0 then io_failed 0 else write_all cs (drop n left) (stream ++ take n left)
      | interrupted ↦ write_all cs left stream
      | failed e ↦ io_failed e
    ]

unfoldable pub send : List ℕ → Wire → Outcome Wire
unfolding write_all encode_length
send message w = write_all w.calls (encode_length (length message)) w.stream >>= λ w'.
    if length message == 0 then done w' else write_all w'.calls message w'.stream

-- `read_all`: `want` bytes are missing, `got` are read. A call reads no more than is missing and no
-- more than the stream has; it returns 0 if the peer has closed.
pub read_all : List SysReturn → ℕ → List ℕ → List ℕ → Bool → Outcome (List ℕ × Wire)
read_all [] want got stream allow_eof =
    if want == 0 then done (got, record { calls = []; stream = stream }) else waiting
read_all (c ∷ cs) want got stream allow_eof =
    if want == 0 then done (got, record { calls = c ∷ cs; stream = stream }) else elim c [
      | count n ↦
          let k : ℕ = min n (min want (length stream)) in
          if k == 0
          then (if allow_eof && length got == 0 then peer_closed else mid_message)
          else read_all cs (want - k) (got ++ take k stream) (drop k stream) allow_eof
      | interrupted ↦ read_all cs want got stream allow_eof
      | failed e ↦ io_failed e
    ]

unfoldable pub receive : Wire → Outcome (List ℕ × Wire)
unfolding read_all decode_length
receive w = read_all w.calls 8 [] w.stream true >>= λ (header, w').
    let len : ℕ = decode_length header in
    if len == 0 then done ([], w') else read_all w'.calls len [] w'.stream false
