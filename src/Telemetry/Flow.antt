-- ===== src/Telemetry/Flow.antt =====
-- No sample is lost uncounted between `record` and `snapshot` of telemetry.hpp.
use aether_mo_e.Common.{
  ℕ, ◌+◌, ◌^◌, ◌≤◌, ◌<◌, ◌≡◌, refl, ap, ◌∙◌, Bool, true, if◌then◌else◌, List, [], ◌∷◌, length,
  length-append, length-take, length-drop, take, drop, arith,
}
use aether_mo_e.Telemetry.{
  MetricSample, Telemetry, put_sample, collect, drain_once, Event, sampled, drained, switched,
  happen, run, fresh, snapshot, ring_capacity,
}
use aether_mo_e.Telemetry.Stats.{compute_stats-count}

-- The samples that callers record while recording is switched on.
abbrev pub offered : Bool → List Event → List MetricSample
offered enabled [] = []
offered enabled (sampled refused s ∷ es) =
    if enabled then s ∷ offered enabled es else offered enabled es
offered enabled (drained pops ∷ es) = offered enabled es
offered enabled (switched b ∷ es) = offered b es

-- Where a sample can be.
abbrev pub held : Telemetry → ℕ
held t = length t.ring + length t.ttft_ns + length t.inter_token_ns + t.dropped

-- A sample or more of them leave the ring and the switch as they are.
abbrev Gains : ℕ → Telemetry → Telemetry → Type 0
Gains n t u =
    (held u ≡ held t + n) × (u.ring ≡ t.ring) × (u.enabled ≡ t.enabled) × (u.dropped ≡ t.dropped)

put_sample-Gains : (s : MetricSample) (t : Telemetry) → Gains 1 t (put_sample s t)
unfolding put_sample
put_sample-Gains s t = ground (
  arith,
  length-append t.ttft_ns (s.latency_ns ∷ []),
  length-append t.inter_token_ns (s.latency_ns ∷ []),
)

collect-Gains : (ss : List MetricSample) (t : Telemetry) → Gains (length ss) t (collect ss t)
unfolding collect
collect-Gains [] t = (omega arith, refl, refl, refl)
collect-Gains (s ∷ ss) t =
    let (a, b, c, d) = put_sample-Gains s t in
    let (e, f, g, h) = collect-Gains ss (put_sample s t) in (omega arith, f ∙ b, g ∙ c, h ∙ d)

-- What one event adds, and what it leaves of the bound on the ring.
happen-held :
    (t : Telemetry) (e : Event)
    → held t + length (offered t.enabled (e ∷ [])) < 2 ^ 64
    → (held (happen t e) ≡ held t + length (offered t.enabled (e ∷ [])))
      × (length t.ring ≤ ring_capacity → length (happen t e).ring ≤ ring_capacity)
unfolding happen
happen-held t (sampled refused s) h = ground (arith, length-append t.ring (s ∷ []))
happen-held t (drained pops) h =
    let (a, b, c, d) = collect-Gains (take pops t.ring) (record t { ring = drop pops t.ring }) in
    let n = length-take pops t.ring in
    let m = length-drop pops t.ring in (omega arith, λ k. rw (b) (omega arith))
happen-held t (switched b) h = ground arith

offered-cons :
    (t : Telemetry) (e : Event) (es : List Event)
    → length (offered t.enabled (e ∷ es))
      ≡ length (offered t.enabled (e ∷ [])) + length (offered (happen t e).enabled es)
unfolding happen
offered-cons t (sampled refused s) es = ground arith
offered-cons t (drained pops) es =
    let (a, b, c, d) = collect-Gains (take pops t.ring) (record t { ring = drop pops t.ring }) in
    rw (c) (omega arith)
offered-cons t (switched b) es = omega arith

run-held :
    (t : Telemetry) (es : List Event)
    → held t + length (offered t.enabled es) < 2 ^ 64
    → length t.ring ≤ ring_capacity
    → (held (run t es) ≡ held t + length (offered t.enabled es))
      × (length (run t es).ring ≤ ring_capacity)
unfolding run
run-held t [] h k = (omega arith, k)
run-held t (e ∷ es) h k =
    let split = offered-cons t e es in
    let (one, room) = happen-held t e (omega arith) in
    let (rest, bound) = run-held (happen t e) es (omega arith) (room k) in (omega arith, bound)

-- No sample disappears. After any events, if fewer than 2 ^ 64 samples were offered while recording
-- was on, a drain whose pops find all that is in the ring and a snapshot show them all: those of both
-- kinds and those that a full ring has dropped add up to the samples offered; and the ring never holds
-- more than its capacity. Drains before may have ended early.
pub run_accounts_for :
    (es : List Event)
    → length (offered true es) < 2 ^ 64
    → let t = run fresh es in
      let s = snapshot (drain_once (length t.ring) t) in
      (s.ttft_stats.count + s.inter_token_stats.count + s.dropped_samples
        ≡ length (offered true es))
      × (length t.ring ≤ ring_capacity)
unfolding snapshot drain_once
run_accounts_for es h =
    let t : Telemetry = run fresh es in
    let (total, room) = run-held fresh es (omega arith) (omega arith) in
    let u : Telemetry = drain_once (length t.ring) t in
    let (gained, left, _, _) =
      collect-Gains (take (length t.ring) t.ring)
        (record t { ring = drop (length t.ring) t.ring }) in
    (
      omega (
        arith,
        ap length left,
        length-take (length t.ring) t.ring,
        length-drop (length t.ring) t.ring,
        compute_stats-count u.ttft_ns,
        compute_stats-count u.inter_token_ns,
      ),
      room,
    )

-- What a drain leaves in the ring.
pub drain_once-ring : (pops : ℕ) (t : Telemetry) → (drain_once pops t).ring ≡ drop pops t.ring
unfolding drain_once
drain_once-ring pops t = (collect-Gains (take pops t.ring) (record t { ring = drop pops t.ring })).1

pub drain_once-held : (pops : ℕ) (t : Telemetry) → held (drain_once pops t) ≡ held t
unfolding drain_once
drain_once-held pops t = omega (
  arith,
  (collect-Gains (take pops t.ring) (record t { ring = drop pops t.ring })).0,
  length-take pops t.ring,
  length-drop pops t.ring,
)
