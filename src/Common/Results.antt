-- ===== src/Common/Results.antt =====
-- Exceptions as values. The constructors are the exception classes that the C++ code throws, with
-- what its messages tell apart.
use Prim.Native.Nat.{ℕ}
use mathlib.Core.Path.{◌≡◌, refl, subst}
use mathlib.Core.Logic.{◌⊎◌, inl, inr}

pub data Error : Type 0 where
  -- std::invalid_argument, by a constructor
  invalid_argument : Error
  -- std::logic_error, with the indices of the two phases in its message
  illegal_transition : ℕ → ℕ → Error
  -- the std::runtime_error of `Reader::need`
  truncated : Error
  -- the std::runtime_error of `Router::reassemble`, by its three messages
  position_out_of_range : ℕ → ℕ → Error
  duplicate_result : ℕ → Error
  missing_result_at : ℕ → Error
  -- the std::runtime_error of `Router::shard_for_expert`
  no_shard_mapping : ℕ → Error
  -- the std::runtime_error of `Router::transport_for_shard`
  no_transport : ℕ → Error
  -- the std::runtime_errors of process_spawn.hpp and of ChaosScript
  socketpair_failed fork_failed waitpid_failed : Error
  no_known_pid : ℕ → Error
  -- PeerClosedError, and what else a transport throws
  peer_closed : Error
  transport_failed : ℕ → Error

pub data Result {ℓ} (A : Type ℓ) : Type ℓ where
  err : Error → Result A
  ok : A → Result A

-- An exception leaves the rest of the block undone.
infixl 5 ◌>>=◌
abbrev pub ◌>>=◌ {ℓ κ} : {A : Type ℓ} {B : Type κ} → Result A → (A → Result B) → Result B
err thrown >>= rest = err thrown
ok value >>= rest = rest value

-- A computation that gives a value with a property, and does not throw.
abbrev pub Returns {ℓ} : {A : Type ℓ} → Result A → (A → Type 0) → Type 0
Returns (ok a) P = P a
Returns (err e) P = ⊥

-- The rule for a bind.
pub >>=-Returns {ℓ κ} :
    {A : Type ℓ} {B : Type κ} (m : Result A) (f : A → Result B) (P : A → Type 0) (Q : B → Type 0)
    → Returns m P
    → ((a : A) → P a → Returns (f a) Q)
    → Returns (m >>= f) Q
>>=-Returns (ok a) f P Q h k = k a h
>>=-Returns (err e) f P Q h k = absurd h

pub Returns-eq_ok {ℓ} :
    {A : Type ℓ} (m : Result A) (P : A → Type 0) {a : A} → Returns m P → m ≡ ok a → P a
Returns-eq_ok m P h e = subst (λ r. Returns r P) e h

pub Returns-mono {ℓ} :
    {A : Type ℓ} (m : Result A) (P Q : A → Type 0)
    → Returns m P
    → ((a : A) → P a → Q a)
    → Returns m Q
Returns-mono (ok a) P Q h k = k a h
Returns-mono (err e) P Q h k = h

pub Returns-both {ℓ} :
    {A : Type ℓ} (m : Result A) (P Q : A → Type 0)
    → Returns m P
    → Returns m Q
    → Returns m (λ a. P a × Q a)
Returns-both (ok a) P Q h k = (h, k)
Returns-both (err e) P Q h k = h

pub Result-cases {ℓ} :
    {A : Type ℓ} (m : Result A) → ((e : Error) × (m ≡ err e)) ⊎ ((a : A) × (m ≡ ok a))
Result-cases (err e) = inl (e, refl)
Result-cases (ok a) = inr (a, refl)
