-- ===== src/Chaos/Sessions.antt =====
-- A session on one DelayInjectingTransport of chaos.hpp: what it answers, and how long it sleeps.
use aether_mo_e.Common.{ℕ, ◌+◌, ◌*◌, ◌≡◌, refl, ap, ◌∙◌, List, [], ◌∷◌, Result, arith}
use aether_mo_e.Collective.{ICollectiveTransport}
use aether_mo_e.Chaos.{Delayed, delaying, slept_after}

pub data Use : Type 0 where
  sends : List ℕ → Use
  receives : Use

pub data Answer : Type 0 where
  sent : Result (Unit {0}) → Answer
  received : Result (List ℕ) → Answer

module _ (T : ICollectiveTransport) where
  pub perform : T.Link → List Use → List Answer × T.Link
  perform l [] = ([], l)
  perform l (sends message ∷ us) =
      let (result, l') = T.send message l in
      let (answers, l'') = perform l' us in (sent result ∷ answers, l'')
  perform l (receives ∷ us) =
      let (result, l') = T.receive l in
      let (answers, l'') = perform l' us in (received result ∷ answers, l'')

-- How many messages a session sends, and how many it waits for.
abbrev pub sends_in : List Use → ℕ
sends_in [] = 0
sends_in (sends message ∷ us) = 1 + sends_in us
sends_in (receives ∷ us) = sends_in us

abbrev pub receives_in : List Use → ℕ
receives_in [] = 0
receives_in (sends message ∷ us) = receives_in us
receives_in (receives ∷ us) = 1 + receives_in us

-- The session on the transport inside, seen from the wrapper.
pub record IsDelayed (T : ICollectiveTransport) (l : Delayed T.Link) (us : List Use) : Type 0 where
  pub same_answers : (perform (delaying T) l us).0 ≡ (perform T l.inner us).0
  pub same_inner : (perform (delaying T) l us).1.inner ≡ (perform T l.inner us).1
  pub same_send : (perform (delaying T) l us).1.send_delay ≡ l.send_delay
  pub same_receive : (perform (delaying T) l us).1.receive_delay ≡ l.receive_delay
  pub slept :
      (perform (delaying T) l us).1.slept
      ≡ l.slept + l.send_delay * sends_in us + l.receive_delay * receives_in us

slept_after_lem : {Link : Type 0} (d : ℕ) (l : Delayed Link) → slept_after d l ≡ l.slept + d
slept_after_lem d l = ground arith

one_more : (d n : ℕ) → d * (1 + n) ≡ d + d * n
one_more d n = grind arith

-- Whatever a session sends and receives, by whatever transport: the wrapper answers each call, an
-- exception included, as the transport inside would, leaves that in the same state, and keeps its
-- delays; and over the session it has slept the send delay once for each message sent and the receive
-- delay once for each call of receive.
pub perform-delaying :
    (T : ICollectiveTransport) (l : Delayed T.Link) (us : List Use) → IsDelayed T l us
unfolding perform
perform-delaying T l [] = record {
  same_answers = refl;
  same_inner = refl;
  same_send = refl;
  same_receive = refl;
  slept = grind arith;
}
perform-delaying T l (sends message ∷ us) =
    let (result, inner') = T.send message l.inner in
    let l' : Delayed T.Link = record l { inner = inner'; slept = slept_after l.send_delay l } in
    let rest = perform-delaying T l' us in
    record {
      same_answers = ap (λ as'. sent result ∷ as') rest.same_answers;
      same_inner = rest.same_inner;
      same_send = rest.same_send;
      same_receive = rest.same_receive;
      slept =
          rest.slept
          ∙ omega (arith, slept_after_lem l.send_delay l, one_more l.send_delay (sends_in us));
    }
perform-delaying T l (receives ∷ us) =
    let (result, inner') = T.receive l.inner in
    let l' : Delayed T.Link = record l { inner = inner'; slept = slept_after l.receive_delay l } in
    let rest = perform-delaying T l' us in
    record {
      same_answers = ap (λ as'. received result ∷ as') rest.same_answers;
      same_inner = rest.same_inner;
      same_send = rest.same_send;
      same_receive = rest.same_receive;
      slept =
          rest.slept
          ∙ omega
              (arith, slept_after_lem l.receive_delay l, one_more l.receive_delay (receives_in us));
    }
