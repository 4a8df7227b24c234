-- ===== src/Transport/Tests.antt =====
-- Short messages through calls that transfer little and are interrupted.
use aether_mo_e.Common.{ℕ, ◌≡◌, ◌≢◌, take, refl, List, [], ◌∷◌, ◌++◌, arith, replicate}
use aether_mo_e.Transport.{
  done, SysReturn, count, interrupted, failed, peer_closed, mid_message, io_failed, waiting, send,
  receive,
}
use aether_mo_e.Transport.Calls.{Ends}
use aether_mo_e.Transport.Cuts.{receive-cut}
use aether_mo_e.Transport.Frames.{frame, send-frame, receive-frame}

abbrev calls : List SysReturn
calls = interrupted ∷ count 3 ∷ (replicate 6 (count 1) ++ (interrupted ∷ replicate 6 (count 9)))

abbrev hello : List ℕ
hello = 104 ∷ 105 ∷ []

send-frame_example :
    Ends
      (send hello (record { calls = calls; stream = 1 ∷ [] }))
      (λ w. w.stream ≡ (1 ∷ []) ++ frame hello)
send-frame_example = send-frame hello calls (1 ∷ []) tt (omega arith)

receive-frame_example :
    Ends
      (receive (record { calls = calls; stream = frame hello ++ (7 ∷ []) }))
      (λ (got, w). (got ≡ hello) × (w.stream ≡ 7 ∷ []))
receive-frame_example = receive-frame hello (7 ∷ []) calls (omega arith) tt (omega arith)

receive_closed : receive (record { calls = count 0 ∷ []; stream = [] }) ≡ peer_closed
unfolding receive
receive_closed = refl

receive_cut : receive (record { calls = count 5 ∷ count 0 ∷ []; stream = 0 ∷ 0 ∷ [] }) ≡ mid_message
unfolding receive
receive_cut = refl

send_broken : send hello (record { calls = count 4 ∷ failed 32 ∷ []; stream = [] }) ≡ io_failed 32
unfolding send
send_broken = refl

receive_waits : receive (record { calls = count 4 ∷ []; stream = 0 ∷ 0 ∷ [] }) ≡ waiting
unfolding receive
receive_waits = refl

receive-cut_example :
    receive (record { calls = calls; stream = take 9 (frame hello) })
    ≢ done (104 ∷ [], record { calls = []; stream = [] })
receive-cut_example = receive-cut hello 9 calls (omega arith) (omega arith)
