-- ===== src/Engine/Books.antt =====
-- Requests on their way through the threads of main.cpp: counted, and with distinct ids.
use aether_mo_e.Common.{
  ℕ, zero, suc, ◌+◌, ◌^◌, ◌≤◌, ◌<◌, ◌≡◌, refl, Bool, not, ◌&&◌, ltb, ◌==◌, if◌then◌else◌, List, [],
  ◌∷◌, ◌++◌, length, Option, none, some, arith, count, Bool-cases, inl, inr, length-append,
}
use aether_mo_e.Sequence.{Sequence, create}
use aether_mo_e.Scheduler.Measures.{dead, with_id, with_id-append, dead-append}
use aether_mo_e.Ingress.{
  Ingress, Json, Response, accepted, healthy, invalid_json, missing_prompt_tokens, queue_full,
  unknown_seq_id, thrown, status_is, begin_generate, push_request, record_request, status, pick,
  respond, begin_sequence, begin_elements, begin_body, report, queue_capacity, get, read_fields,
  Status, healthz, stoull, report_id,
}
use aether_mo_e.Engine.{push_picked, record_picked}

-- The responses that accept the request `k`.
abbrev pub accepts : ℕ → List Response → ℕ
accepts k [] = 0
accepts k (accepted j ∷ rs) = (if k == j then 1 else 0) + accepts k rs
accepts k (healthy ∷ rs) = accepts k rs
accepts k (invalid_json ∷ rs) = accepts k rs
accepts k (missing_prompt_tokens ∷ rs) = accepts k rs
accepts k (queue_full ∷ rs) = accepts k rs
accepts k (unknown_seq_id ∷ rs) = accepts k rs
accepts k (thrown ∷ rs) = accepts k rs
accepts k (status_is j s ∷ rs) = accepts k rs

accepts-append :
    (k : ℕ) (rs qs : List Response) → accepts k (rs ++ qs) ≡ accepts k rs + accepts k qs
accepts-append k [] qs = omega arith
accepts-append k (accepted j ∷ rs) qs = omega (arith, accepts-append k rs qs)
accepts-append k (healthy ∷ rs) qs = accepts-append k rs qs
accepts-append k (invalid_json ∷ rs) qs = accepts-append k rs qs
accepts-append k (missing_prompt_tokens ∷ rs) qs = accepts-append k rs qs
accepts-append k (queue_full ∷ rs) qs = accepts-append k rs qs
accepts-append k (unknown_seq_id ∷ rs) qs = accepts-append k rs qs
accepts-append k (thrown ∷ rs) qs = accepts-append k rs qs
accepts-append k (status_is j s ∷ rs) qs = accepts-append k rs qs

-- What is picked and what is left add up to what was there.
abbrev Splits {ℓ} : {A : Type ℓ} → (List A → ℕ) → List A → Option (A × List A) → Type 0
Splits total xs none = Unit
Splits total xs (some p) = total xs ≡ total (p.0 ∷ p.1)

module _ {ℓ} {A : Type ℓ} (total : List A → ℕ) (weight : A → ℕ)
    (total-cons : (x : A) (xs : List A) → total (x ∷ xs) ≡ weight x + total xs) where
  pick-Splits : (n : ℕ) (xs : List A) → Splits total xs (pick n xs)
  unfolding pick
  pick-Splits n [] = tt
  pick-Splits zero (x ∷ xs) = refl
  pick-Splits (suc n) (x ∷ xs) = pass_over (pick n xs) (pick-Splits n xs)
    where
      pass_over :
          (o : Option (A × List A))
          → Splits total xs o
          → Splits total (x ∷ xs) (elim o [ some p ↦ some (p.0, x ∷ p.1) | none ↦ none ])
      pass_over none h = tt
      pass_over (some p) h = omega (
        arith,
        h,
        total-cons x xs,
        total-cons p.0 p.1,
        total-cons p.0 (x ∷ p.1),
        total-cons x p.1,
      )

-- The requests that have an id, wherever they are, are told apart by it; and no request is lost
-- between the handlers and the scheduler, which has been given `qs`.
pub record Books (i : Ingress) (qs : List Sequence) : Type 0 where
  pub live : dead i.queue + dead i.pushing ≡ 0
  pub distinct : (k : ℕ) → with_id k qs + with_id k i.queue + with_id k i.pushing ≤ 1
  pub fresh :
      (k : ℕ) → i.next_seq_id ≤ k → with_id k qs + with_id k i.queue + with_id k i.pushing ≡ 0
  pub answered :
      (k : ℕ) → accepts k i.responses + count k i.recording ≡ with_id k qs + with_id k i.queue
  pub room : length i.queue ≤ queue_capacity

abbrev pub Silent : Response → Type 0
Silent r = (k : ℕ) → accepts k (r ∷ []) ≡ 0

respond-Books :
    (i : Ingress) (qs : List Sequence) (r : Response)
    → Silent r
    → Books i qs
    → Books (respond r i) qs
respond-Books i qs r quiet b = record {
  live = b.live;
  distinct = b.distinct;
  fresh = b.fresh;
  answered = λ k. omega (arith, accepts-append k i.responses (r ∷ []), quiet k, b.answered k);
  room = b.room;
}

-- What a step may do to the ids given out.
abbrev pub Kept : Ingress → ℕ → List Sequence → Type 0
Kept i bound qs = Books i qs × (i.next_seq_id ≤ bound)

begin_sequence-Kept :
    {J : Type 0} (json : Json J) (now : ℕ) (i : Ingress) (qs : List Sequence)
    (o : Option (List ℕ × ℕ))
    → i.next_seq_id + 1 < 2 ^ 64
    → Books i qs
    → Kept (begin_sequence json now i o) (i.next_seq_id + 1) qs
unfolding begin_sequence create
begin_sequence-Kept json now i qs none h b = (respond-Books i qs thrown (λ k. refl) b, omega arith)
begin_sequence-Kept json now i qs (some fields) h b = (
  record {
    live = ground (arith, b.live);
    distinct = λ k. ground (arith, b.distinct k, b.fresh k);
    fresh = λ k g. ground (arith, b.fresh k);
    answered = b.answered;
    room = b.room;
  },
  omega arith,
)

pub begin_generate-Kept :
    {J : Type 0} (json : Json J) (request : List ℕ) (now : ℕ) (i : Ingress) (qs : List Sequence)
    → i.next_seq_id + 1 < 2 ^ 64
    → Books i qs
    → Kept (begin_generate json request now i) (i.next_seq_id + 1) qs
unfolding begin_generate begin_body begin_elements
begin_generate-Kept json request now i qs h b = for_body (json.parse request)
  where
    for_elements :
        (body : _) (o : Option (List _))
        → Kept (begin_elements json body now i o) (i.next_seq_id + 1) qs
    for_elements body none = (respond-Books i qs missing_prompt_tokens (λ k. refl) b, omega arith)
    for_elements body (some elements) =
        begin_sequence-Kept json now i qs (read_fields json body elements) h b

    for_body : (o : Option _) → Kept (begin_body json now i o) (i.next_seq_id + 1) qs
    for_body none = (respond-Books i qs invalid_json (λ k. refl) b, omega arith)
    for_body (some body) = for_elements body (json.prompt_tokens body)

pub push_picked-Kept :
    (refused : Bool) (i : Ingress) (qs : List Sequence) (n : ℕ)
    → Books i qs
    → Kept (push_picked refused i (pick n i.pushing)) i.next_seq_id qs
unfolding push_picked push_request
push_picked-Kept refused i qs n b =
    go (pick n i.pushing) (λ k. pick-Splits (with_id k) _ (λ x xs. refl) n i.pushing)
      (pick-Splits dead _ (λ x xs. refl) n i.pushing)
  where
    go :
        (o : Option (Sequence × List Sequence))
        → ((k : ℕ) → Splits (with_id k) i.pushing o)
        → Splits dead i.pushing o
        → Kept (push_picked refused i o) i.next_seq_id qs
    go none ids lives = (b, omega arith)
    go (some p) ids lives = elim (Bool-cases (not refused && ltb (length i.queue) queue_capacity)) [
      | inl room ↦ rw (room) (
        record {
          live = ground (arith, b.live, lives, dead-append i.queue (p.0 ∷ []));
          distinct = λ k. omega (arith, b.distinct k, ids k, with_id-append k i.queue (p.0 ∷ []));
          fresh = λ k g. omega (arith, b.fresh k g, ids k, with_id-append k i.queue (p.0 ∷ []));
          answered = λ k. ground (arith, b.answered k, with_id-append k i.queue (p.0 ∷ []));
          room = ground (arith, length-append i.queue (p.0 ∷ []));
        },
        omega arith,
      )
      | inr full ↦ rw (full) (
        respond-Books (record i { pushing = p.1 }) qs queue_full (λ k. refl)
            (record {
              live = omega (arith, b.live, lives);
              distinct = λ k. omega (arith, b.distinct k, ids k);
              fresh = λ k g. omega (arith, b.fresh k g, ids k);
              answered = b.answered;
              room = b.room;
            }),
        omega arith,
      )
    ]

pub record_picked-Kept :
    (i : Ingress) (qs : List Sequence) (n : ℕ)
    → Books i qs
    → Kept (record_picked i (pick n i.recording)) i.next_seq_id qs
unfolding record_picked record_request
record_picked-Kept i qs n b =
    go (pick n i.recording) (λ k. pick-Splits (count k) _ (λ x xs. refl) n i.recording)
  where
    go :
        (o : Option (ℕ × List ℕ))
        → ((k : ℕ) → Splits (count k) i.recording o)
        → Kept (record_picked i o) i.next_seq_id qs
    go none counts = (b, omega arith)
    go (some p) counts = (
      record {
        live = b.live;
        distinct = b.distinct;
        fresh = b.fresh;
        answered = λ k.
            omega (arith, accepts-append k i.responses (accepted p.0 ∷ []), b.answered k, counts k);
        room = b.room;
      },
      omega arith,
    )

pub healthz-Kept :
    (i : Ingress) (qs : List Sequence) → Books i qs → Kept (healthz i) i.next_seq_id qs
unfolding healthz
healthz-Kept i qs b = (respond-Books i qs healthy (λ k. refl) b, omega arith)

pub status-Kept :
    (digits : List ℕ) (i : Ingress) (qs : List Sequence)
    → Books i qs
    → Kept (status digits i) i.next_seq_id qs
unfolding status report_id report
status-Kept digits i qs b = for_id (stoull digits)
  where
    go : (seq_id : ℕ) (o : Option Status) → Kept (report seq_id i o) i.next_seq_id qs
    go seq_id none = (respond-Books i qs unknown_seq_id (λ k. refl) b, omega arith)
    go seq_id (some found) =
        (respond-Books i qs (status_is seq_id found) (λ k. refl) b, omega arith)

    for_id : (o : Option ℕ) → Kept (report_id i o) i.next_seq_id qs
    for_id none = (respond-Books i qs thrown (λ k. refl) b, omega arith)
    for_id (some seq_id) = go seq_id (get seq_id i.status_table)
