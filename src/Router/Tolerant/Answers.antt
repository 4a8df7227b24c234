-- ===== src/Router/Tolerant/Answers.antt =====
-- What the `try` block of `route_batch_tolerant` can give.
use aether_mo_e.Common.{
  Option-cases, lookup, insert, ℕ, suc, ◌<◌, ◌≡◌, refl, ap, true, List, [], ◌∷◌, get_or, length,
  All, arith, inl, inr, Result, ok, err, ◌⊎◌,
}
use aether_mo_e.RoutedToken.{RoutedToken, RoutedResult}
use aether_mo_e.Collective.{ICollectiveTransport}
use aether_mo_e.Router.{blank}
use aether_mo_e.Serialization.{encode_token_batch, decode_result_batch}
use aether_mo_e.Router.Batch.{Router, M, ◌>>=◌, lift, send_to, receive_from}
use aether_mo_e.Router.Tolerant.{token_at, exchange}

-- A result that stands for a token at the position which has none.
abbrev pub IsFailure : List RoutedToken → ℕ → RoutedResult → Type 0
IsFailure tokens pos r =
    (i : ℕ) × ((token_at tokens i).batch_position ≡ pos)
    × (r.token_id ≡ (token_at tokens i).token_id)
    × (r.failed ≡ true)

-- What the transports can deliver.
abbrev pub Heard : (T : ICollectiveTransport) → List RoutedResult → Type 0
Heard T rs =
    (link : T.Link) × (raw : List ℕ) × ((T.receive link).0 ≡ ok raw)
    × (decode_result_batch raw ≡ ok rs)

-- A result in a message that a transport has delivered, but for the expert.
abbrev pub IsAnswer : (T : ICollectiveTransport) → RoutedResult → Type 0
IsAnswer T r =
    (rs : List RoutedResult) × Heard T rs
    × ((k : ℕ) × (k < length rs)
        × (r ≡ record (get_or rs k blank) { effective_expert = r.effective_expert }))

abbrev pub Good : ICollectiveTransport → List RoutedToken → ℕ → RoutedResult → Type 0
Good T tokens pos r = IsFailure tokens pos r ⊎ IsAnswer T r

pub All-get_or :
    (P : RoutedResult → Type 0) (rs : List RoutedResult)
    → ((k : ℕ) → k < length rs → P (get_or rs k blank))
    → All P rs
All-get_or P [] h = tt
All-get_or P (r ∷ rs) h = (h 0 (omega arith), All-get_or P rs (λ k l. h (suc k) (omega arith)))

module _ (T : ICollectiveTransport) where
  open T use {Link}

  abbrev pub IfOk : {A : Type 0} → (A → Type 0) → Result A × Router Link → Type 0
  IfOk P (ok a, r) = P a
  IfOk P (err e, r) = Unit

  pub >>=-IfOk :
      {A B : Type 0} (P : A → Type 0) (Q : B → Type 0) (m : M Link A) (f : A → M Link B)
      (r : Router Link)
      → IfOk P (m r)
      → ((a : A) (r' : Router Link) → P a → IfOk Q (f a r'))
      → IfOk Q ((m >>= f) r)
  >>=-IfOk {A} {B} P Q m f r h k = go (m r) h
    where
      go :
          (x : Result A × Router Link)
          → IfOk P x
          → IfOk Q (let (result, r') = x in elim result [ err e ↦ (err e, r') | ok a ↦ f a r' ])
      go (ok a, r') h = k a r' h
      go (err e, r') h = tt

  pub IfOk-Unit : {A : Type 0} (x : Result A × Router Link) → IfOk (λ a. Unit {0}) x
  IfOk-Unit (ok a, r) = tt
  IfOk-Unit (err e, r) = tt

  -- A message was received from some link.
  abbrev Received : List ℕ → Type 0
  Received raw = (link : Link) × ((T.receive link).0 ≡ ok raw)

  receive_from-IfOk : (shard_id : ℕ) (r : Router Link) → IfOk Received (receive_from T shard_id r)
  unfolding receive_from
  receive_from-IfOk shard_id r = elim (Option-cases (lookup shard_id r.shard_transports)) [
    | inl e ↦ rw (receive_from, e) tt
    | inr (link, e) ↦ rw (receive_from, e) (from link (T.receive link) refl)
  ]
    where
      from :
          (link : Link) (x : Result (List ℕ) × Link)
          → T.receive link ≡ x
          → IfOk Received
              (x.0, record r { shard_transports = insert shard_id x.1 r.shard_transports })
      from link (ok raw, l) e = (link, ap (λ (x : Result (List ℕ) × Link). x.0) e)
      from link (err x, l) e = tt

  pub exchange-IfOk :
      (shard_id : ℕ) (group : List RoutedToken) (r : Router Link)
      → IfOk (Heard T) (exchange T shard_id group r)
  unfolding exchange
  exchange-IfOk shard_id group r =
      >>=-IfOk (λ sent. Unit) (Heard T) (send_to T shard_id (encode_token_batch group)) _ r
        (IfOk-Unit (send_to T shard_id (encode_token_batch group) r))
        λ sent r' u.
          >>=-IfOk Received (Heard T) (receive_from T shard_id)
            (λ raw. lift (decode_result_batch raw)) r' (receive_from-IfOk shard_id r')
            λ raw r'' (link, e). decoded link raw r'' e (decode_result_batch raw) refl
    where
      decoded :
          (link : Link) (raw : List ℕ) (r'' : Router Link)
          → (T.receive link).0 ≡ ok raw
          → (x : Result (List RoutedResult)) → decode_result_batch raw ≡ x
          → IfOk (Heard T) (x, r'')
      decoded link raw r'' e (ok rs) f = (link, raw, e, f)
      decoded link raw r'' e (err x) f = tt
