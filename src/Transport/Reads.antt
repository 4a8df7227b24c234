-- ===== src/Transport/Reads.antt =====
-- read_all of unix_socket_transport.hpp on a stream that begins with what is wanted.
use aether_mo_e.Common.{
  ℕ, zero, suc, ◌+◌, ◌≤◌, ◌<◌, ◌≡◌, refl, ◌∙◌, sym, ap, List, [], ◌∷◌, ◌++◌, arith, length, take,
  drop, append_assoc, append-nil, take-append-drop, length-drop, length-append, min, Bool, ◌==◌,
  false,
}
use aether_mo_e.Transport.{SysReturn, count, interrupted, failed, Wire, read_all}
use aether_mo_e.Transport.Calls.{IsSteady, transfers, Ends, Ends-mono, suc-eq_zero}

take-append_left : (k : ℕ) (xs ys : List ℕ) → k ≤ length xs → take k (xs ++ ys) ≡ take k xs
take-append_left zero xs ys h = refl
take-append_left (suc k) [] ys h = absurd (omega arith)
take-append_left (suc k) (x ∷ xs) ys h = ap (λ l. x ∷ l) (take-append_left k xs ys (omega arith))

drop-append_left : (k : ℕ) (xs ys : List ℕ) → k ≤ length xs → drop k (xs ++ ys) ≡ drop k xs ++ ys
drop-append_left zero xs ys h = refl
drop-append_left (suc k) [] ys h = absurd (omega arith)
drop-append_left (suc k) (x ∷ xs) ys h = drop-append_left k xs ys (omega arith)

-- What a finished read gives: the wanted bytes behind those it had, and the rest of the stream.
abbrev pub HasRead : List SysReturn → List ℕ → List ℕ → List ℕ → List ℕ × Wire → Type 0
HasRead cs got body rest (r, w) =
    (r ≡ got ++ body)
    × (w.stream ≡ rest)
    × IsSteady w.calls
    × (transfers cs ≤ transfers w.calls + length body)

-- The bytes that one call gives.
abbrev given : ℕ → List ℕ → List ℕ → ℕ
given n body rest = min n (min (length body) (length (body ++ rest)))

given_bounds :
    (n b : ℕ) (bs rest : List ℕ)
    → (0 < given (suc n) (b ∷ bs) rest) × (given (suc n) (b ∷ bs) rest ≤ suc (length bs))
given_bounds n b bs rest = omega (arith, length-append bs rest)

positive-eq_zero : (k : ℕ) → 0 < k → (k == 0) ≡ false
positive-eq_zero k h = ground arith

HasRead-step :
    (cs : List SysReturn) (n k : ℕ) (got body rest : List ℕ) (a : List ℕ × Wire)
    → 0 < k
    → k ≤ length body
    → HasRead cs (got ++ take k body) (drop k body) rest a
    → HasRead (count (suc n) ∷ cs) got body rest a
HasRead-step cs n k got body rest a h at_most (bytes, left, steady, used) = (
  bytes
      ∙ append_assoc got (take k body) (drop k body)
      ∙ ap (λ l. got ++ l) (take-append-drop k body),
  left,
  steady,
  omega (arith, length-drop k body),
)

pub read_all-HasRead :
    (cs : List SysReturn) (got body rest : List ℕ) (allow_eof : Bool)
    → IsSteady cs
    → length body ≤ transfers cs
    → Ends (read_all cs (length body) got (body ++ rest) allow_eof) (HasRead cs got body rest)
unfolding read_all
read_all-HasRead [] got [] rest eof v h = (sym (append-nil got), refl, tt, omega arith)
read_all-HasRead [] got (b ∷ bs) rest eof v h = absurd (omega arith)
read_all-HasRead (c ∷ cs) got [] rest eof v h = (sym (append-nil got), refl, v, omega arith)
read_all-HasRead (count zero ∷ cs) got (b ∷ bs) rest eof v h = absurd v
read_all-HasRead (count (suc n) ∷ cs) got (b ∷ bs) rest eof v h =
    let k : ℕ = given (suc n) (b ∷ bs) rest in
    let (some_given, at_most) = given_bounds n b bs rest in
    let more =
      read_all-HasRead cs (got ++ take k (b ∷ bs)) (drop k (b ∷ bs)) rest eof v
        (omega (arith, length-drop k (b ∷ bs), h)) in
    rw
      (
        suc-eq_zero (length bs),
        positive-eq_zero k some_given,
        take-append_left k (b ∷ bs) rest at_most,
        drop-append_left k (b ∷ bs) rest at_most,
        sym (length-drop k (b ∷ bs)),
      )
      (Ends-mono
        (read_all cs (length (drop k (b ∷ bs))) (got ++ take k (b ∷ bs)) (drop k (b ∷ bs) ++ rest)
          eof)
        (HasRead cs (got ++ take k (b ∷ bs)) (drop k (b ∷ bs)) rest)
        (HasRead (count (suc n) ∷ cs) got (b ∷ bs) rest) more
        λ a. HasRead-step cs n k got (b ∷ bs) rest a some_given at_most)
read_all-HasRead (interrupted ∷ cs) got (b ∷ bs) rest eof v h =
    rw (suc-eq_zero (length bs)) (read_all-HasRead cs got (b ∷ bs) rest eof v h)
read_all-HasRead (failed x ∷ cs) got (b ∷ bs) rest eof v h = absurd v
