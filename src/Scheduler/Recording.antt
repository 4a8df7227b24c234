-- ===== src/Scheduler/Recording.antt =====
-- The calls of the recorder in the decode loop of scheduler.hpp, and the samples that stand for them.
use aether_mo_e.Common.{ℕ, ◌≡◌, refl, Bool, List, [], ◌∷◌}
use aether_mo_e.Sequence.{Sequence}
use aether_mo_e.Telemetry.{Telemetry, record_sample, record_ttft, record_inter_token}
use aether_mo_e.Scheduler.{nanoseconds, sample_for}

-- `if (seq->generated_tokens.empty()) record_ttft(...) else record_inter_token(...)`
unfoldable record_token : Bool → Sequence → List ℕ → ℕ → Telemetry → Telemetry
unfolding record_ttft record_inter_token
record_token refused seq [] now t = record_ttft refused seq.id (nanoseconds now seq.admitted_at) t
record_token refused seq (x ∷ xs) now t =
    record_inter_token refused seq.id (nanoseconds now seq.last_decode_at) t

-- The call offers the recorder the sample that `emit_token` keeps.
record_token_lem :
    (refused : Bool) (seq : Sequence) (generated : List ℕ) (now : ℕ) (t : Telemetry)
    → record_token refused seq generated now t
      ≡ record_sample refused (sample_for seq generated now) t
unfolding record_token record_ttft record_inter_token sample_for
record_token_lem refused seq [] now t = refl
record_token_lem refused seq (x ∷ xs) now t = refl
