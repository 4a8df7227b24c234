-- ===== src/Telemetry.antt =====
-- src/core/telemetry.hpp: what is recorded, drained and summed up.
-- The ring is a bounded queue here, as RingBuffer/Refinement allows; whether a push that has room is
-- refused, because a pop has not finished with the cell, is an argument. A double is kept as the
-- exact number: counts below 2 ^ 46 and sums below 2 ^ 53 have no rounding.
pub mod Stats
pub mod Flow
pub mod Lifecycle
mod Tests
use aether_mo_e.Common.{
  take, drop, ℕ, ◌+◌, ◌-◌, ◌*◌, ◌/◌, ◌%◌, ◌^◌, Bool, true, false, not, ◌&&◌, ltb, ◌==◌,
  if◌then◌else◌, List, [], ◌∷◌, ◌++◌, length, get_or, sort_by, size_t,
}

pub data MetricKind : Type 0 where
  ttft inter_token : MetricKind

pub record MetricSample : Type 0 where
  pub seq_id : ℕ
  pub kind : MetricKind
  pub latency_ns : ℕ

-- `mean_ns` is `sum_ns` divided by `count`.
pub record MetricStats : Type 0 where
  pub count : ℕ
  pub sum_ns : ℕ
  pub p50_ns : ℕ
  pub p95_ns : ℕ
  pub p99_ns : ℕ
  pub max_ns : ℕ

pub sum : List ℕ → ℕ
sum [] = 0
sum (v ∷ vs) = v + sum vs

-- The rank ceil(p * n) for a percentage p, and the clamping.
abbrev pub rank : ℕ → ℕ → ℕ
rank percent n =
    let idx : ℕ = (percent * n + 99) / 100 in
    let low : ℕ = if idx == 0 then 1 else idx in if ltb n low then n else low

-- `pct`, on the sorted vector.
abbrev pub pct : ℕ → List ℕ → ℕ
pct percent sorted = get_or sorted (rank percent (length sorted) - 1) 0

unfoldable pub compute_stats : List ℕ → MetricStats
unfolding sum sort_by
compute_stats latencies_ns =
    if length latencies_ns == 0
    then record { count = 0; sum_ns = 0; p50_ns = 0; p95_ns = 0; p99_ns = 0; max_ns = 0 }
    else (let sorted : List ℕ = sort_by (λ v. v) latencies_ns in
        record {
          count = length latencies_ns;
          sum_ns = sum sorted;
          p50_ns = pct 50 sorted;
          p95_ns = pct 95 sorted;
          p99_ns = pct 99 sorted;
          max_ns = get_or sorted (length sorted - 1) 0;
        })

-- TelemetryRecorder with its ring, and TelemetryFlusher without its thread.
pub record Telemetry : Type 0 where
  pub enabled : Bool
  pub dropped : ℕ
  pub ring : List MetricSample
  pub ttft_ns : List ℕ
  pub inter_token_ns : List ℕ

abbrev pub ring_capacity : ℕ
ring_capacity = 65536

-- `record`; a full ring drops the sample.
pub record_sample : Bool → MetricSample → Telemetry → Telemetry
record_sample refused sample t =
    if not t.enabled
    then t
    else (if not refused && ltb (length t.ring) ring_capacity
        then record t { ring = t.ring ++ (sample ∷ []) }
        else record t { dropped = size_t (t.dropped + 1) })

unfoldable pub record_ttft : Bool → ℕ → ℕ → Telemetry → Telemetry
unfolding record_sample
record_ttft refused seq_id latency_ns t =
    record_sample refused (record { seq_id = seq_id; kind = ttft; latency_ns = latency_ns }) t

unfoldable pub record_inter_token : Bool → ℕ → ℕ → Telemetry → Telemetry
unfolding record_sample
record_inter_token refused seq_id latency_ns t =
    record_sample refused (record { seq_id = seq_id; kind = inter_token; latency_ns = latency_ns })
      t

-- One sample goes to the vector of its kind.
pub put_sample : MetricSample → Telemetry → Telemetry
put_sample s t = elim s.kind [
  | ttft ↦ record t { ttft_ns = t.ttft_ns ++ (s.latency_ns ∷ []) }
  | inter_token ↦ record t { inter_token_ns = t.inter_token_ns ++ (s.latency_ns ∷ []) }
]

-- The loop of `drain_once`, over what it pops. A push during the loop counts as before or after it.
pub collect : List MetricSample → Telemetry → Telemetry
unfolding put_sample
collect [] t = t
collect (s ∷ ss) t = collect ss (put_sample s t)

-- `pops` is how many calls of try_pop find an item: the loop ends at the first that does not, which
-- can be before the ring is empty, if a push has claimed a cell and not published it.
pub drain_once : ℕ → Telemetry → Telemetry
unfolding collect
drain_once pops t = collect (take pops t.ring) (record t { ring = drop pops t.ring })

pub set_enabled : Bool → Telemetry → Telemetry
set_enabled enabled t = record t { enabled = enabled }

-- The loop that empties the ring ends as the one of `drain_once` does.
pub reset_for_testing : ℕ → Telemetry → Telemetry
reset_for_testing pops t = record t { dropped = 0; ring = drop pops t.ring }

pub record TelemetrySnapshot : Type 0 where
  pub ttft_stats : MetricStats
  pub inter_token_stats : MetricStats
  pub dropped_samples : ℕ

pub snapshot : Telemetry → TelemetrySnapshot
unfolding compute_stats
snapshot t = record {
  ttft_stats = compute_stats t.ttft_ns;
  inter_token_stats = compute_stats t.inter_token_ns;
  dropped_samples = t.dropped;
}

-- What the callers and the flusher's thread do, in any order.
pub data Event : Type 0 where
  sampled : (refused : Bool) → MetricSample → Event
  drained : (pops : ℕ) → Event
  switched : (enabled : Bool) → Event

pub happen : Telemetry → Event → Telemetry
unfolding record_sample drain_once set_enabled
happen t (sampled refused sample) = record_sample refused sample t
happen t (drained pops) = drain_once pops t
happen t (switched enabled) = set_enabled enabled t

unfoldable pub run : Telemetry → List Event → Telemetry
unfolding happen
run t [] = t
run t (e ∷ es) = run (happen t e) es

abbrev pub fresh : Telemetry
fresh = record { enabled = true; dropped = 0; ring = []; ttft_ns = []; inter_token_ns = [] }
