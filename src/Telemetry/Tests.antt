-- ===== src/Telemetry/Tests.antt =====
-- A few samples of both kinds.
use aether_mo_e.Common.{
  ◌++◌, ℕ, ◌+◌, ◌≤◌, ◌<◌, ◌≡◌, refl, true, false, List, [], ◌∷◌, length, arith, sort_by, count,
}
use aether_mo_e.Telemetry.{
  MetricSample, ttft, inter_token, Event, sampled, drained, switched, run, fresh, snapshot,
  drain_once, compute_stats, ring_capacity, reset_for_testing,
}
use aether_mo_e.Telemetry.Lifecycle.{new_flusher, Action, starts, stops, joins, runs, happens, play}
use aether_mo_e.Telemetry.Stats.{IsPercentile, at_most, compute_stats_lem}
use aether_mo_e.Telemetry.Flow.{offered, run_accounts_for}

abbrev first : MetricSample
first = record { seq_id = 1; kind = ttft; latency_ns = 900 }

abbrev next : ℕ → MetricSample
next ns = record { seq_id = 1; kind = inter_token; latency_ns = ns }

-- The third sample meets a pop that has not finished; the last one comes while recording is off.
abbrev events : List Event
events =
    sampled false first
    ∷ sampled false (next 30)
    ∷ sampled true (next 50)
    ∷ drained 1
    ∷ sampled false (next 10)
    ∷ switched false
    ∷ sampled false (next 70)
    ∷ []

summary_of_all : snapshot (drain_once 3 (run fresh events)) ≡ record {
  ttft_stats = record {
    count = 1;
    sum_ns = 900;
    p50_ns = 900;
    p95_ns = 900;
    p99_ns = 900;
    max_ns = 900;
  };
  inter_token_stats = record {
    count = 2;
    sum_ns = 40;
    p50_ns = 10;
    p95_ns = 30;
    p99_ns = 30;
    max_ns = 30;
  };
  dropped_samples = 1;
}
unfolding run snapshot drain_once compute_stats sort_by
summary_of_all = refl

reset_drops : (reset_for_testing 2 (run fresh events)).dropped ≡ 0
unfolding reset_for_testing
reset_drops = refl

run_accounts_for_example :
    let t = run fresh events in
    let s = snapshot (drain_once (length t.ring) t) in
    (s.ttft_stats.count + s.inter_token_stats.count + s.dropped_samples
      ≡ length (offered true events))
    × (length t.ring ≤ ring_capacity)
run_accounts_for_example = run_accounts_for events (omega arith)

abbrev sample : List ℕ
sample = 40 ∷ 10 ∷ 30 ∷ 20 ∷ []

compute_stats_lem_example :
    IsPercentile 50 sample (compute_stats sample).p50_ns
    × IsPercentile 95 sample (compute_stats sample).p95_ns
    × IsPercentile 99 sample (compute_stats sample).p99_ns
    × ((compute_stats sample).p50_ns ≤ (compute_stats sample).p95_ns)
    × ((compute_stats sample).p95_ns ≤ (compute_stats sample).p99_ns)
    × ((compute_stats sample).p99_ns ≤ (compute_stats sample).max_ns)
    × (0 < count (compute_stats sample).max_ns sample)
    × (at_most (compute_stats sample).max_ns sample ≡ length sample)
    × ((compute_stats sample).count ≡ length sample)
    × ((compute_stats sample).sum_ns ≡ 100)
unfolding compute_stats
compute_stats_lem_example = compute_stats_lem sample (omega arith)

abbrev before : List Action
before = starts ∷ runs 0 ∷ happens (sampled false first) ∷ starts ∷ runs 0 ∷ []

abbrev during : List Action
during = runs 1 ∷ happens (sampled false (next 30)) ∷ stops ∷ runs 0 ∷ runs 0 ∷ []

-- The sample that comes while the owner waits is drained by stop itself.
stop_drains :
    (play
      (joins 2 ∷ [])
      (play during (play (before ++ (stops ∷ [])) new_flusher))).telemetry.inter_token_ns
    ≡ 30 ∷ []
unfolding play drain_once
stop_drains = refl
