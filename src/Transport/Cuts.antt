-- ===== src/Transport/Cuts.antt =====
-- receive of unix_socket_transport.hpp on a stream that ends within a frame.
use aether_mo_e.Common.{
  ℕ, zero, suc, ◌+◌, ◌-◌, ◌≤◌, ◌<◌, ◌^◌, ◌≡◌, ◌≢◌, refl, ◌∙◌, sym, ap, subst, List, [], ◌∷◌, ◌++◌,
  arith, length, take, drop, min, Bool, ◌==◌, if◌then◌else◌, ◌&&◌, true, false, Bool-cases, inl,
  inr, length-drop, length-take, length-append, append_assoc, append-nil, take_append,
}
use aether_mo_e.Transport.Calls.{suc-eq_zero}
use aether_mo_e.Transport.Lengths.{length-encode_length, decode-encode_length}
use aether_mo_e.Transport.Frames.{frame}
use aether_mo_e.Transport.{
  SysReturn, count, interrupted, failed, Outcome, done, peer_closed, mid_message, io_failed,
  waiting, Wire, ◌>>=◌, read_all, receive, encode_length,
}

-- A read that ends has taken what was wanted from the front of the stream.
record HasTaken (want : ℕ) (got stream : List ℕ) (a : List ℕ × Wire) : Type 0 where
  enough : want ≤ length stream
  bytes : a.0 ≡ got ++ take want stream
  left : a.1.stream ≡ drop want stream

-- If the operation ends without an exception, the value has the property.
abbrev IfDone : {A : Type 0} → Outcome A → (A → Type 0) → Type 0
IfDone (done a) P = P a
IfDone peer_closed P = Unit
IfDone mid_message P = Unit
IfDone (io_failed e) P = Unit
IfDone waiting P = Unit

IfDone-mono :
    {A : Type 0} (m : Outcome A) (P Q : A → Type 0)
    → IfDone m P
    → ((a : A) → P a → Q a)
    → IfDone m Q
IfDone-mono (done a) P Q h k = k a h
IfDone-mono peer_closed P Q h k = tt
IfDone-mono mid_message P Q h k = tt
IfDone-mono (io_failed e) P Q h k = tt
IfDone-mono waiting P Q h k = tt

>>=-IfDone :
    {A B : Type 0} (m : Outcome A) (f : A → Outcome B) (P : A → Type 0) (Q : B → Type 0)
    → IfDone m P
    → ((a : A) → P a → IfDone (f a) Q)
    → IfDone (m >>= f) Q
>>=-IfDone (done a) f P Q h k = k a h
>>=-IfDone peer_closed f P Q h k = tt
>>=-IfDone mid_message f P Q h k = tt
>>=-IfDone (io_failed e) f P Q h k = tt
>>=-IfDone waiting f P Q h k = tt

take_nil : (n : ℕ) → take {A = ℕ} n [] ≡ []
take_nil zero = refl
take_nil (suc n) = refl

drop_nil : (n : ℕ) → drop {A = ℕ} n [] ≡ []
drop_nil zero = refl
drop_nil (suc n) = refl

take_then : (k n : ℕ) (xs : List ℕ) → k ≤ n → take k xs ++ take (n - k) (drop k xs) ≡ take n xs
take_then zero n xs h = let same : n - 0 ≡ n = omega arith in ap (λ m. take m xs) same
take_then (suc k) zero xs h = absurd (omega arith)
take_then (suc k) (suc n) [] h = take_nil (suc n - suc k)
take_then (suc k) (suc n) (x ∷ xs) h =
    let same : suc n - suc k ≡ n - k = omega arith in
    ap (λ l. x ∷ l) (rw (same) (take_then k n xs (omega arith)))

drop_then : (k n : ℕ) (xs : List ℕ) → k ≤ n → drop (n - k) (drop k xs) ≡ drop n xs
drop_then zero n xs h = let same : n - 0 ≡ n = omega arith in ap (λ m. drop m xs) same
drop_then (suc k) zero xs h = absurd (omega arith)
drop_then (suc k) (suc n) [] h = drop_nil (suc n - suc k)
drop_then (suc k) (suc n) (x ∷ xs) h =
    let same : suc n - suc k ≡ n - k = omega arith in rw (same) (drop_then k n xs (omega arith))

HasTaken-step :
    (k want : ℕ) (got stream : List ℕ) (a : List ℕ × Wire)
    → k ≤ want
    → k ≤ length stream
    → HasTaken (want - k) (got ++ take k stream) (drop k stream) a
    → HasTaken want got stream a
HasTaken-step k want got stream a h le t = record {
  enough = omega (arith, t.enough, length-drop k stream);
  bytes =
      t.bytes
      ∙ append_assoc got (take k stream) (take (want - k) (drop k stream))
      ∙ ap (λ l. got ++ l) (take_then k want stream h);
  left = t.left ∙ drop_then k want stream h;
}

no_value :
    (P : List ℕ × Wire → Type 0) (b : Bool) → IfDone (if b then peer_closed else mid_message) P
no_value P true = tt
no_value P false = tt

read_all-HasTaken :
    (cs : List SysReturn) (want : ℕ) (got stream : List ℕ) (eof : Bool)
    → IfDone (read_all cs want got stream eof) (HasTaken want got stream)
unfolding read_all
read_all-HasTaken [] zero got stream eof = record {
  enough = omega arith;
  bytes = sym (append-nil got);
  left = refl;
}
read_all-HasTaken [] (suc m) got stream eof = rw (suc-eq_zero m) tt
read_all-HasTaken (c ∷ cs) zero got stream eof = record {
  enough = omega arith;
  bytes = sym (append-nil got);
  left = refl;
}
read_all-HasTaken (count n ∷ cs) (suc m) got stream eof =
    let k : ℕ = min n (min (suc m) (length stream)) in
    elim (Bool-cases (k == 0)) [
      | inl e ↦ rw (suc-eq_zero m, e) (no_value _ (eof && length got == 0))
      | inr e ↦
          rw (suc-eq_zero m, e)
            (IfDone-mono (read_all cs (suc m - k) (got ++ take k stream) (drop k stream) eof)
              (HasTaken (suc m - k) (got ++ take k stream) (drop k stream))
              (HasTaken (suc m) got stream)
              (read_all-HasTaken cs (suc m - k) (got ++ take k stream) (drop k stream) eof)
              λ a t. HasTaken-step k (suc m) got stream a (omega arith) (omega arith) t)
    ]
read_all-HasTaken (interrupted ∷ cs) (suc m) got stream eof =
    rw (suc-eq_zero m) (read_all-HasTaken cs (suc m) got stream eof)
read_all-HasTaken (failed x ∷ cs) (suc m) got stream eof = rw (suc-eq_zero m) tt

take-take : (k n : ℕ) (xs : List ℕ) → k ≤ n → take k (take n xs) ≡ take k xs
take-take zero n xs h = refl
take-take (suc k) zero xs h = absurd (omega arith)
take-take (suc k) (suc n) [] h = refl
take-take (suc k) (suc n) (x ∷ xs) h = ap (λ l. x ∷ l) (take-take k n xs (omega arith))

short_body :
    (message : List ℕ) (w : Wire)
    → length w.stream < length message
    → IfDone
        (if length message == 0
          then done ([], w)
          else read_all w.calls (length message) [] w.stream false)
        (λ a. ⊥)
short_body [] w h = absurd (omega arith)
short_body (b ∷ bs) w h = rw (suc-eq_zero (length bs)) (
    IfDone-mono (read_all w.calls (length (b ∷ bs)) [] w.stream false)
      (HasTaken (length (b ∷ bs)) [] w.stream) (λ a. ⊥)
      (read_all-HasTaken w.calls (length (b ∷ bs)) [] w.stream false)
      λ a t. omega (arith, t.enough, h))

receive_short :
    (message : List ℕ) (n : ℕ) (calls : List SysReturn)
    → length message < 2 ^ 64
    → n < 8 + length message
    → IfDone (receive (record { calls = calls; stream = take n (frame message) })) (λ a. ⊥)
unfolding receive
receive_short message n calls fits h =
    let header : List ℕ = encode_length (length message) in
    let eight : length header ≡ 8 = length-encode_length (length message) in
    let size : length (take n (frame message)) ≡ min n (8 + length message) =
      omega (arith, length-take n (frame message), length-append header message, eight) in
    >>=-IfDone (read_all calls 8 [] (take n (frame message)) true) _
      (HasTaken 8 [] (take n (frame message))) (λ a. ⊥)
      (read_all-HasTaken calls 8 [] (take n (frame message)) true)
      λ a t.
        let first : a.0 ≡ header =
          t.bytes
          ∙ take-take 8 n (frame message) (omega (arith, t.enough, size))
          ∙ ap (λ k. take k (frame message)) (sym eight)
          ∙ take_append header message in
        rw (first, decode-encode_length (length message) fits)
          (short_body message a.1 (
            rw (t.left) (omega (arith, length-drop 8 (take n (frame message)), size, t.enough, h))))

-- From a stream that ends within a frame receive gives no message, whatever the system calls do: it
-- throws or waits.
pub receive-cut :
    (message : List ℕ) (n : ℕ) (calls : List SysReturn) {a : List ℕ × Wire}
    → length message < 2 ^ 64
    → n < 8 + length message
    → receive (record { calls = calls; stream = take n (frame message) }) ≢ done a
receive-cut message n calls fits h e =
    subst (λ m. IfDone m (λ a. ⊥)) e (receive_short message n calls fits h)
