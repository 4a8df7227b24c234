-- ===== src/Router/Batch/Order.antt =====
-- The order and the annotation of what `route_batch` returns.
use aether_mo_e.Common.{
  ℕ, zero, suc, ◌<◌, ◌≡◌, refl, ◌∙◌, ap, subst, List, [], ◌∷◌, map, length, get_or, arith, Result,
  ok, err, Returns-eq_ok,
}
use aether_mo_e.RoutedToken.{RoutedToken, RoutedResult}
use aether_mo_e.Collective.{ICollectiveTransport}
use aether_mo_e.Router.{blank, reassemble}
use aether_mo_e.Router.Reassembly.{result_for, reassemble_complete, reassemble_sound}
use aether_mo_e.Router.Assignment.{assign_effective_experts, group_by_shard}
use aether_mo_e.Router.Assignment.Ranks.{length-assign_effective_experts}
use aether_mo_e.Router.Batch.{
  Router, ◌>>=◌, lift, annotate, scatter, gather, finish_batch, exchange_batch, route_batch,
}
use aether_mo_e.Router.Tolerant.Answers.{IfOk, >>=-IfOk, IfOk-Unit}

length-annotate : (rs : List RoutedResult) (es : List ℕ) → length (annotate rs es) ≡ length rs
length-annotate [] es = refl
length-annotate (r ∷ rs) [] = refl
length-annotate (r ∷ rs) (e ∷ es) = ap suc (length-annotate rs es)

get_or-annotate :
    (rs : List RoutedResult) (es : List ℕ) (i : ℕ)
    → i < length rs
    → i < length es
    → get_or (annotate rs es) i blank
      ≡ record (get_or rs i blank) { effective_expert = get_or es i 0 }
get_or-annotate [] es i h k = absurd (omega arith)
get_or-annotate (r ∷ rs) [] i h k = absurd (omega arith)
get_or-annotate (r ∷ rs) (e ∷ es) zero h k = refl
get_or-annotate (r ∷ rs) (e ∷ es) (suc i) h k = get_or-annotate rs es i (omega arith) (omega arith)

-- What a batch of `n` tokens with these experts is returned as.
abbrev IsOrdered : ℕ → List ℕ → ℕ → List RoutedResult → Type 0
IsOrdered n es i out =
    (length out ≡ n)
    × ((get_or out i blank).batch_position ≡ i)
    × ((get_or out i blank).effective_expert ≡ get_or es i 0)

annotate-IsOrdered :
    (n : ℕ) (flat : List RoutedResult) (es : List ℕ) (i : ℕ) {ordered : List RoutedResult}
    → reassemble n flat ≡ ok ordered
    → length es ≡ n
    → i < n
    → IsOrdered n es i (annotate ordered es)
annotate-IsOrdered n flat es i {ordered} e size lt =
    let (len, same, pos) =
      Returns-eq_ok (reassemble n flat)
        (λ out.
          (length out ≡ n)
          × (get_or out i blank ≡ result_for i flat blank)
          × ((get_or out i blank).batch_position ≡ i))
        (reassemble_complete n flat i (reassemble_sound n flat e) lt) e in
    let here = get_or-annotate ordered es i (omega arith) (omega arith) in
    (
      length-annotate ordered es ∙ len,
      ap (λ (r : RoutedResult). r.batch_position) here ∙ pos,
      ap (λ (r : RoutedResult). r.effective_expert) here,
    )

module _ (T : ICollectiveTransport) where
  open T use {Link}

  lift-IfOk :
      {A : Type 0} (m : Result A) (P : A → Type 0) (r : Router Link)
      → ((a : A) → m ≡ ok a → P a)
      → IfOk T P (lift m r)
  lift-IfOk (ok a) P r h = h a refl
  lift-IfOk (err e) P r h = tt

  value_of :
      {A : Type 0} (P : A → Type 0) (x : Result A × Router Link) {a : A}
      → x.0 ≡ ok a
      → IfOk T P x
      → P a
  value_of P (ok b, r) e h = subst P (ground arith) h
  value_of P (err x, r) e h = cc

  finish_batch-IfOk :
      (tokens : List RoutedToken) (es : List ℕ) (i : ℕ) (flat : List RoutedResult) (r : Router Link)
      → length es ≡ length tokens
      → i < length tokens
      → IfOk T (IsOrdered (length tokens) es i) (finish_batch T tokens es flat r)
  unfolding finish_batch
  finish_batch-IfOk tokens es i flat r size lt =
      >>=-IfOk T (λ ordered. reassemble (length tokens) flat ≡ ok ordered)
        (IsOrdered (length tokens) es i) (lift (reassemble (length tokens) flat))
        (λ ordered. lift (ok (annotate ordered es))) r
        (lift-IfOk (reassemble (length tokens) flat) _ r (λ a k. k))
        (λ ordered r' k. annotate-IsOrdered (length tokens) flat es i k size lt)

  exchange_batch-IfOk :
      (tokens : List RoutedToken) (es : List ℕ) (i : ℕ) (groups : List (ℕ × List RoutedToken))
      (r : Router Link)
      → length es ≡ length tokens
      → i < length tokens
      → IfOk T (IsOrdered (length tokens) es i) (exchange_batch T tokens es groups r)
  unfolding exchange_batch
  exchange_batch-IfOk tokens es i groups r size lt =
      let shards : List ℕ = map (λ g. g.0) groups in
      >>=-IfOk T (λ sent. Unit) (IsOrdered (length tokens) es i) (scatter T groups)
        (λ sent. gather T shards [] >>= λ flat. finish_batch T tokens es flat) r
        (IfOk-Unit T (scatter T groups r))
        λ sent r1 u.
          >>=-IfOk T (λ flat. Unit) (IsOrdered (length tokens) es i) (gather T shards [])
            (λ flat. finish_batch T tokens es flat) r1 (IfOk-Unit T (gather T shards [] r1))
            (λ flat r2 w. finish_batch-IfOk tokens es i flat r2 size lt)

-- If route_batch returns, then with one result for each token of the batch: the result at index i
-- has batch position i, and is annotated with the expert that was assigned to the token at index i
-- of the batch, whatever the batch position of that token is.
pub route_batch_ordered :
    (T : ICollectiveTransport) (tokens : List RoutedToken) (r : Router T.Link) (i : ℕ)
    {out : List RoutedResult}
    → (route_batch T tokens r).0 ≡ ok out
    → i < length tokens
    → (length out ≡ length tokens)
      × ((get_or out i blank).batch_position ≡ i)
      × ((get_or out i blank).effective_expert
          ≡ get_or (assign_effective_experts tokens r.expert_capacity) i 0)
unfolding route_batch
route_batch_ordered T tokens r i {out} e lt =
    let es : List ℕ = assign_effective_experts tokens r.expert_capacity in
    let P : List RoutedResult → Type 0 = IsOrdered (length tokens) es i in
    value_of T P (route_batch T tokens r) e (
      >>=-IfOk T (λ g. Unit) P (lift (group_by_shard r.expert_to_shard tokens es []))
        (λ groups. exchange_batch T tokens es groups) r
        (IfOk-Unit T (lift (group_by_shard r.expert_to_shard tokens es []) r))
        λ groups r1 u.
          exchange_batch-IfOk T tokens es i groups r1
            (length-assign_effective_experts tokens r.expert_capacity) lt)
