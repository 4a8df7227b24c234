-- ===== src/Scheduler/Measures.antt =====
-- What the loops of scheduler.hpp keep count of, as sums over sequences, results and samples.
use aether_mo_e.Common.{
  ℕ, ◌+◌, ◌-◌, max, ◌≡◌, Bool, true, false, ◌&&◌, not, List, [], ◌∷◌, ◌++◌, arith, ltb, ◌==◌,
  if◌then◌else◌, length,
}
use aether_mo_e.Sequence.{Sequence, SequencePhase, prefill, decode, finished}
use aether_mo_e.Scheduler.{StepResult}
use aether_mo_e.Telemetry.{MetricSample, MetricKind, ttft, inter_token}

abbrev pub is_finished : SequencePhase → Bool
is_finished prefill = false
is_finished decode = false
is_finished finished = true

abbrev pub is_ttft : MetricKind → Bool
is_ttft ttft = true
is_ttft inter_token = false

-- A request asks for `max_new_tokens`, and gets one token at least.
abbrev pub quota : Sequence → ℕ
quota q = max 1 q.max_new_tokens

-- A sequence that may stand in a queue: it still owes a token.
abbrev pub is_live : Sequence → Bool
is_live q = not (is_finished q.phase) && ltb (length q.generated_tokens) (quota q)

abbrev pub one_if : Bool → ℕ
one_if b = if b then 1 else 0

-- How many sequences are not live.
abbrev pub dead : List Sequence → ℕ
dead [] = 0
dead (q ∷ qs) = one_if (not (is_live q)) + dead qs

-- How many sequences have the id `k`.
abbrev pub with_id : ℕ → List Sequence → ℕ
with_id k [] = 0
with_id k (q ∷ qs) = one_if (q.id == k) + with_id k qs

-- The tokens that the sequences with the id `k` still owe.
abbrev pub owed : ℕ → List Sequence → ℕ
owed k [] = 0
owed k (q ∷ qs) = (if q.id == k then quota q - length q.generated_tokens else 0) + owed k qs

abbrev pub has_none : List ℕ → Bool
has_none [] = true
has_none (t ∷ ts) = false

-- The sequences with the id `k` that have no token yet.
abbrev pub unstarted : ℕ → List Sequence → ℕ
unstarted k [] = 0
unstarted k (q ∷ qs) =
    (if q.id == k then one_if (has_none q.generated_tokens) else 0) + unstarted k qs

-- The tokens that an iteration processed.
abbrev pub tokens : List StepResult → ℕ
tokens [] = 0
tokens (r ∷ rs) = r.tokens_processed + tokens rs

-- The results that say that the sequence `k` finished.
abbrev pub ended : ℕ → List StepResult → ℕ
ended k [] = 0
ended k (r ∷ rs) = (if r.seq_id == k then one_if (is_finished r.phase_after) else 0) + ended k rs

-- The decode steps of the sequence `k`.
abbrev pub decodes : ℕ → List StepResult → ℕ
decodes k [] = 0
decodes k (r ∷ rs) = (if r.seq_id == k then one_if (not r.was_prefill_chunk) else 0) + decodes k rs

-- The TTFT samples of the sequence `k`, and all its samples.
abbrev pub ttfts : ℕ → List MetricSample → ℕ
ttfts k [] = 0
ttfts k (m ∷ ms) = (if m.seq_id == k then one_if (is_ttft m.kind) else 0) + ttfts k ms

abbrev pub sampled : ℕ → List MetricSample → ℕ
sampled k [] = 0
sampled k (m ∷ ms) = one_if (m.seq_id == k) + sampled k ms

pub dead-append : (xs ys : List Sequence) → dead (xs ++ ys) ≡ dead xs + dead ys
dead-append [] ys = omega arith
dead-append (x ∷ xs) ys = omega (arith, dead-append xs ys)

pub with_id-append :
    (k : ℕ) (xs ys : List Sequence) → with_id k (xs ++ ys) ≡ with_id k xs + with_id k ys
with_id-append k [] ys = omega arith
with_id-append k (x ∷ xs) ys = omega (arith, with_id-append k xs ys)

pub owed-append : (k : ℕ) (xs ys : List Sequence) → owed k (xs ++ ys) ≡ owed k xs + owed k ys
owed-append k [] ys = omega arith
owed-append k (x ∷ xs) ys = omega (arith, owed-append k xs ys)

pub unstarted-append :
    (k : ℕ) (xs ys : List Sequence) → unstarted k (xs ++ ys) ≡ unstarted k xs + unstarted k ys
unstarted-append k [] ys = omega arith
unstarted-append k (x ∷ xs) ys = omega (arith, unstarted-append k xs ys)

pub tokens-append : (xs ys : List StepResult) → tokens (xs ++ ys) ≡ tokens xs + tokens ys
tokens-append [] ys = omega arith
tokens-append (x ∷ xs) ys = omega (arith, tokens-append xs ys)

pub ended-append : (k : ℕ) (xs ys : List StepResult) → ended k (xs ++ ys) ≡ ended k xs + ended k ys
ended-append k [] ys = omega arith
ended-append k (x ∷ xs) ys = omega (arith, ended-append k xs ys)

pub decodes-append :
    (k : ℕ) (xs ys : List StepResult) → decodes k (xs ++ ys) ≡ decodes k xs + decodes k ys
decodes-append k [] ys = omega arith
decodes-append k (x ∷ xs) ys = omega (arith, decodes-append k xs ys)

pub ttfts-append :
    (k : ℕ) (xs ys : List MetricSample) → ttfts k (xs ++ ys) ≡ ttfts k xs + ttfts k ys
ttfts-append k [] ys = omega arith
ttfts-append k (x ∷ xs) ys = omega (arith, ttfts-append k xs ys)

pub sampled-append :
    (k : ℕ) (xs ys : List MetricSample) → sampled k (xs ++ ys) ≡ sampled k xs + sampled k ys
sampled-append k [] ys = omega arith
sampled-append k (x ∷ xs) ys = omega (arith, sampled-append k xs ys)
