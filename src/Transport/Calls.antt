-- ===== src/Transport/Calls.antt =====
-- Sequences of system calls that get through, and operations of the transport that end.
use aether_mo_e.Common.{ℕ, zero, suc, ◌≡◌, List, [], ◌∷◌, false, ◌==◌, arith}
use aether_mo_e.Transport.{
  SysReturn, count, interrupted, failed, Outcome, done, peer_closed, mid_message, io_failed,
  waiting, ◌>>=◌,
}

-- No call fails or transfers nothing; signals may interrupt any of them.
abbrev pub IsSteady : List SysReturn → Type 0
IsSteady [] = Unit
IsSteady (count zero ∷ cs) = ⊥
IsSteady (count (suc n) ∷ cs) = IsSteady cs
IsSteady (interrupted ∷ cs) = IsSteady cs
IsSteady (failed e ∷ cs) = ⊥

-- How many of the calls transfer bytes.
abbrev pub transfers : List SysReturn → ℕ
transfers [] = 0
transfers (count n ∷ cs) = suc (transfers cs)
transfers (interrupted ∷ cs) = transfers cs
transfers (failed e ∷ cs) = transfers cs

-- The operation ends without an exception, in a value with the property.
abbrev pub Ends : {A : Type 0} → Outcome A → (A → Type 0) → Type 0
Ends (done a) P = P a
Ends peer_closed P = ⊥
Ends mid_message P = ⊥
Ends (io_failed e) P = ⊥
Ends waiting P = ⊥

pub >>=-Ends :
    {A B : Type 0} (m : Outcome A) (f : A → Outcome B) (P : A → Type 0) (Q : B → Type 0)
    → Ends m P
    → ((a : A) → P a → Ends (f a) Q)
    → Ends (m >>= f) Q
>>=-Ends (done a) f P Q h k = k a h
>>=-Ends peer_closed f P Q h k = absurd h
>>=-Ends mid_message f P Q h k = absurd h
>>=-Ends (io_failed e) f P Q h k = absurd h
>>=-Ends waiting f P Q h k = absurd h

pub Ends-mono :
    {A : Type 0} (m : Outcome A) (P Q : A → Type 0) → Ends m P → ((a : A) → P a → Q a) → Ends m Q
Ends-mono (done a) P Q h k = k a h
Ends-mono peer_closed P Q h k = h
Ends-mono mid_message P Q h k = h
Ends-mono (io_failed e) P Q h k = h
Ends-mono waiting P Q h k = h

pub suc-eq_zero : (n : ℕ) → (suc n == 0) ≡ false
suc-eq_zero n = ground arith
