-- ===== src/Transport/Frames.antt =====
-- A message that send puts on the stream, and what receive makes of the stream.
use aether_mo_e.Common.{
  ℕ, suc, ◌+◌, ◌≤◌, ◌<◌, ◌^◌, ◌≡◌, refl, ◌∙◌, sym, ap, subst, List, [], ◌∷◌, ◌++◌, arith, length,
  append_assoc, append-nil, ◌==◌, if◌then◌else◌, true, false,
}
use aether_mo_e.Transport.{SysReturn, done, Wire, write_all, read_all, send, receive, encode_length}
use aether_mo_e.Transport.Calls.{IsSteady, transfers, Ends, >>=-Ends, Ends-mono, suc-eq_zero}
use aether_mo_e.Transport.Lengths.{length-encode_length, decode-encode_length}
use aether_mo_e.Transport.Writes.{write_all-Written, Written}
use aether_mo_e.Transport.Reads.{read_all-HasRead, HasRead}

-- A message as it travels.
abbrev pub frame : List ℕ → List ℕ
frame message = encode_length (length message) ++ message

-- If no write fails or transfers nothing, and if there are enough calls for a byte each, then send
-- ends and adds to the stream the message behind its eight-byte length, whatever the sizes of the
-- partial writes and wherever signals interrupt.
pub send-frame :
    (message : List ℕ) (calls : List SysReturn) (stream : List ℕ)
    → IsSteady calls
    → 8 + length message ≤ transfers calls
    → Ends
        (send message (record { calls = calls; stream = stream }))
        (λ w. w.stream ≡ stream ++ frame message)
unfolding send
send-frame [] calls stream v h =
    >>=-Ends (write_all calls (encode_length 0) stream) _ (Written calls (encode_length 0) stream) _
      (write_all-Written calls (encode_length 0) stream v
        (omega (arith, length-encode_length 0, h)))
      λ w p.
        let (bytes, steady, used) = p in
        bytes ∙ ap (λ l. stream ++ l) (sym (append-nil (encode_length 0)))
send-frame (b ∷ bs) calls stream v h =
    let header : List ℕ = encode_length (suc (length bs)) in
    >>=-Ends (write_all calls header stream) _ (Written calls header stream) _
      (write_all-Written calls header stream v
        (omega (arith, length-encode_length (suc (length bs)), h)))
      λ w p.
        let (bytes, steady, used) = p in
        rw (suc-eq_zero (length bs)) (
          Ends-mono (write_all w.calls (b ∷ bs) w.stream) (Written w.calls (b ∷ bs) w.stream) _
            (write_all-Written w.calls (b ∷ bs) w.stream steady
              (omega (arith, length-encode_length (suc (length bs)), h, used)))
            λ u q.
              let (more, _, _) = q in
              more ∙ ap (λ l. l ++ (b ∷ bs)) bytes ∙ append_assoc stream header (b ∷ bs))

-- What receive does after the header.
read_body :
    (message rest : List ℕ) (w : Wire)
    → w.stream ≡ message ++ rest
    → IsSteady w.calls
    → length message ≤ transfers w.calls
    → Ends
        (if length message == 0
          then done ([], w)
          else read_all w.calls (length message) [] w.stream false)
        (λ (got, u). (got ≡ message) × (u.stream ≡ rest))
read_body [] rest w e v h = (refl, e)
read_body (b ∷ bs) rest w e v h =
    rw (suc-eq_zero (length bs), e)
      (Ends-mono (read_all w.calls (length (b ∷ bs)) [] ((b ∷ bs) ++ rest) false)
        (HasRead w.calls [] (b ∷ bs) rest) _ (read_all-HasRead w.calls [] (b ∷ bs) rest false v h)
        λ (got, u) p. (p.0, p.1))

-- If no read fails or transfers nothing, if there are enough calls for a byte each, and if the
-- stream begins with the frame of a message of less than 2 ^ 64 bytes, then receive ends, and gives
-- exactly that message and leaves exactly what followed it, whatever the sizes of the partial reads
-- and wherever signals interrupt.
pub receive-frame :
    (message rest : List ℕ) (calls : List SysReturn)
    → length message < 2 ^ 64
    → IsSteady calls
    → 8 + length message ≤ transfers calls
    → Ends
        (receive (record { calls = calls; stream = frame message ++ rest }))
        (λ (got, w). (got ≡ message) × (w.stream ≡ rest))
unfolding receive
receive-frame message rest calls fits v h =
    let header : List ℕ = encode_length (length message) in
    rw (append_assoc header message rest) (
      >>=-Ends (read_all calls 8 [] (header ++ (message ++ rest)) true) _
        (HasRead calls [] header (message ++ rest)) _
        (subst
          (λ n.
            Ends (read_all calls n [] (header ++ (message ++ rest)) true)
              (HasRead calls [] header (message ++ rest)))
          (length-encode_length (length message))
          (read_all-HasRead calls [] header (message ++ rest) true v
            (omega (arith, length-encode_length (length message), h))))
        λ a p.
          let (bytes, left, steady, used) = p in
          rw (bytes, decode-encode_length (length message) fits)
            (read_body message rest a.1 left steady
              (omega (arith, length-encode_length (length message), h, used))))
