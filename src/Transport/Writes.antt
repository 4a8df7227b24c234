-- ===== src/Transport/Writes.antt =====
-- write_all and send of unix_socket_transport.hpp.
use aether_mo_e.Common.{
  ℕ, zero, suc, ◌+◌, ◌≤◌, ◌≡◌, ◌∙◌, sym, ap, List, [], ◌∷◌, ◌++◌, arith, length, take, drop,
  append_assoc, append-nil, take-append-drop, length-drop,
}
use aether_mo_e.Transport.{SysReturn, count, interrupted, failed, Wire, write_all}
use aether_mo_e.Transport.Calls.{IsSteady, transfers, Ends, Ends-mono, suc-eq_zero}

-- What a finished write leaves: all bytes are on the stream, and each used up one call at most.
abbrev pub Written : List SysReturn → List ℕ → List ℕ → Wire → Type 0
Written cs left stream w =
    (w.stream ≡ stream ++ left)
    × IsSteady w.calls
    × (transfers cs ≤ transfers w.calls + length left)

pub write_all-Written :
    (cs : List SysReturn) (left stream : List ℕ)
    → IsSteady cs
    → length left ≤ transfers cs
    → Ends (write_all cs left stream) (Written cs left stream)
unfolding write_all
write_all-Written [] [] stream v h = (sym (append-nil stream), tt, omega arith)
write_all-Written [] (b ∷ bs) stream v h = absurd (omega arith)
write_all-Written (c ∷ cs) [] stream v h = (sym (append-nil stream), v, omega arith)
write_all-Written (count zero ∷ cs) (b ∷ bs) stream v h = absurd v
write_all-Written (count (suc n) ∷ cs) (b ∷ bs) stream v h =
    rw (suc-eq_zero (length bs), suc-eq_zero n)
      (Ends-mono (write_all cs (drop n bs) (stream ++ (b ∷ take n bs))) _ _
        (write_all-Written cs (drop n bs) (stream ++ (b ∷ take n bs)) v
          (omega (arith, length-drop n bs)))
        λ w p.
          let (bytes, steady, used) = p in
          (
            bytes
                ∙ append_assoc stream (b ∷ take n bs) (drop n bs)
                ∙ ap (λ l. stream ++ (b ∷ l)) (take-append-drop n bs),
            steady,
            omega (arith, length-drop n bs),
          ))
write_all-Written (interrupted ∷ cs) (b ∷ bs) stream v h =
    rw (suc-eq_zero (length bs)) (write_all-Written cs (b ∷ bs) stream v h)
write_all-Written (failed x ∷ cs) (b ∷ bs) stream v h = absurd v
