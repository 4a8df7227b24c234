-- ===== src/Serialization/Readers.antt =====
-- Readers of serialization.hpp that consume exactly the bytes that a writer made.
use mathlib.Core.Path.{ap₂}
use aether_mo_e.Common.{
  All, subst, sym, append-nil, ℕ, zero, suc, ◌-◌, ◌*◌, ◌^◌, ◌≤◌, ◌<◌, ◌≡◌, refl, ◌∙◌, ap, List, [],
  ◌∷◌, ◌++◌, arith, length, take, length-append, append_assoc, take_append, drop_append,
  length-take, ok, err, truncated,
}
use native.Mathlib.Decide.{dec_lt}
use aether_mo_e.Serialization.{
  le_bytes, le_value, Reader, ◌>>=◌, pure, get_bytes, get_u32, get_u64, float_bytes, floats_of,
  get_floats, get_many,
}

-- `m` reads the bytes `xs` as `a`, whatever follows them, and throws on each strict prefix.
pub record Exact {A : Type 0} (m : Reader A) (xs : List ℕ) (a : A) : Type 0 where
  pub full : (rest : List ℕ) → m (xs ++ rest) ≡ ok (a, rest)
  pub cut : (n : ℕ) → n < length xs → m (take n xs) ≡ err truncated

take_append_short : (n : ℕ) (xs ys : List ℕ) → n ≤ length xs → take n (xs ++ ys) ≡ take n xs
take_append_short zero xs ys h = refl
take_append_short (suc n) [] ys h = absurd (omega arith)
take_append_short (suc n) (x ∷ xs) ys h = ap (λ l. x ∷ l) (take_append_short n xs ys (omega arith))

take_append_long :
    (n : ℕ) (xs ys : List ℕ) → length xs ≤ n → take n (xs ++ ys) ≡ xs ++ take (n - length xs) ys
take_append_long n [] ys h = ap (λ k. take k ys) (omega arith)
take_append_long zero (x ∷ xs) ys h = absurd (omega arith)
take_append_long (suc n) (x ∷ xs) ys h =
    ap (λ l. x ∷ l)
      (take_append_long n xs ys (omega arith) ∙ ap (λ k. xs ++ take k ys) (omega arith))

pub pure-Exact : {A : Type 0} (a : A) → Exact (pure a) [] a
pure-Exact a = record { full = λ rest. refl; cut = λ n h. absurd (omega arith) }

pub >>=-Exact :
    {A B : Type 0} (m : Reader A) (f : A → Reader B) (xs ys : List ℕ) (a : A) (b : B)
    → Exact m xs a
    → Exact (f a) ys b
    → Exact (m >>= f) (xs ++ ys) b
>>=-Exact m f xs ys a b p q = record {
  full = λ rest. rw (append_assoc xs ys rest, p.full (ys ++ rest), ◌>>=◌) (q.full rest);
  cut = λ n h. elim (dec_lt n (length xs)) [
    | yes early ↦ rw (take_append_short n xs ys (omega arith), p.cut n early, ◌>>=◌)
    | no late ↦
        rw (take_append_long n xs ys (omega arith), p.full (take (n - length xs) ys), ◌>>=◌)
          (q.cut (n - length xs) (omega (arith, length-append xs ys)))
  ];
}

get_bytes-Exact : (xs : List ℕ) → Exact (get_bytes (length xs)) xs xs
unfolding get_bytes
get_bytes-Exact xs = record {
  full = λ rest. ground (arith, length-append xs rest, take_append xs rest, drop_append xs rest);
  cut = λ n h. ground (arith, length-take n xs);
}

le_value_4 : (v : ℕ) → v < 2 ^ 32 → le_value (le_bytes 4 v) ≡ v
le_value_4 v h = omega arith

le_value_8 : (v : ℕ) → v < 2 ^ 64 → le_value (le_bytes 8 v) ≡ v
le_value_8 v h = omega arith

pub get_u32-Exact : (v : ℕ) → v < 2 ^ 32 → Exact get_u32 (le_bytes 4 v) v
unfolding get_u32
get_u32-Exact v h =
    >>=-Exact (get_bytes 4) (λ bs. pure (le_value bs)) (le_bytes 4 v) [] (le_bytes 4 v) v
      (get_bytes-Exact (le_bytes 4 v))
      (subst (λ w. Exact (pure w) [] v) (sym (le_value_4 v h)) (pure-Exact v))

pub get_u64-Exact : (v : ℕ) → v < 2 ^ 64 → Exact get_u64 (le_bytes 8 v) v
unfolding get_u64
get_u64-Exact v h =
    >>=-Exact (get_bytes 8) (λ bs. pure (le_value bs)) (le_bytes 8 v) [] (le_bytes 8 v) v
      (get_bytes-Exact (le_bytes 8 v))
      (subst (λ w. Exact (pure w) [] v) (sym (le_value_8 v h)) (pure-Exact v))

length-float_bytes : (fs : List ℕ) → length (float_bytes fs) ≡ length fs * 4
length-float_bytes [] = refl
length-float_bytes (f ∷ fs) = omega (arith, length-float_bytes fs)

floats_of-float_bytes :
    (fs : List ℕ) → All (λ f. f < 2 ^ 32) fs → floats_of (length fs) (float_bytes fs) ≡ fs
floats_of-float_bytes [] h = refl
floats_of-float_bytes (f ∷ fs) h = ap₂ ◌∷◌ (le_value_4 f h.0) (floats_of-float_bytes fs h.1)

pub get_floats-Exact :
    (fs : List ℕ)
    → length fs < 2 ^ 32
    → All (λ f. f < 2 ^ 32) fs
    → Exact get_floats (le_bytes 4 (length fs) ++ float_bytes fs) fs
unfolding get_floats
get_floats-Exact fs short h =
    >>=-Exact get_u32 _ (le_bytes 4 (length fs)) (float_bytes fs) (length fs) fs
      (get_u32-Exact (length fs) short)
      (subst
        (λ xs. Exact (get_bytes (length fs * 4) >>= λ bs. pure (floats_of (length fs) bs)) xs fs)
        (append-nil (float_bytes fs))
        (>>=-Exact (get_bytes (length fs * 4)) _ (float_bytes fs) [] (float_bytes fs) fs
          (subst (λ n. Exact (get_bytes n) (float_bytes fs) (float_bytes fs))
            (length-float_bytes fs) (get_bytes-Exact (float_bytes fs)))
          (subst (λ w. Exact (pure w) [] fs) (sym (floats_of-float_bytes fs h)) (pure-Exact fs))))

-- The bytes of a list, one element after another.
abbrev pub concat {ℓ} : {A : Type ℓ} → (A → List ℕ) → List A → List ℕ
concat w [] = []
concat w (x ∷ xs) = w x ++ concat w xs

pub get_many-Exact :
    {A : Type 0} (get : Reader A) (w : A → List ℕ) (P : A → Type 0)
    → ((x : A) → P x → Exact get (w x) x)
    → (xs : List A) → All P xs
    → Exact (get_many get (length xs)) (concat w xs) xs
unfolding get_many
get_many-Exact get w P each [] h = pure-Exact []
get_many-Exact get w P each (x ∷ xs) h =
    >>=-Exact get _ (w x) (concat w xs) x (x ∷ xs) (each x h.0) (
      subst (λ ys. Exact (get_many get (length xs) >>= λ zs. pure (x ∷ zs)) ys (x ∷ xs))
        (append-nil (concat w xs))
        (>>=-Exact (get_many get (length xs)) _ (concat w xs) [] xs (x ∷ xs)
          (get_many-Exact get w P each xs h.1) (pure-Exact (x ∷ xs))))
