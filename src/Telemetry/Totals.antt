-- ===== src/Telemetry/Totals.antt =====
-- The counts of a summary add up.
use processguard_ai.Telemetry.{
  sum_values, DiagnosisOutcome, root_cause_accepted, root_cause_needs_human_review, outcome_eq,
  is_diagnosed, is_decided, confidences, count_between, TelemetrySummary, get_count, sum,
}
use processguard_ai.Incident.{Incident}
use processguard_ai.Db.{Db}
use processguard_ai.Base.{ℕ, ◌+◌, ◌≤◌, ◌≡◌, List, length, keep, All}

-- Only the two outcomes are keys.
abbrev both : List (DiagnosisOutcome × ℕ) → ℕ
both d =
    get_count outcome_eq root_cause_accepted d
    + get_count outcome_eq root_cause_needs_human_review d

abbrev pub IsPercent : ℕ → Type 0
IsPercent c = c ≤ 100

-- One bucket for each percentage.
bucketed : List ℕ → ℕ
unfolding count_between
bucketed cs =
    count_between 0 20 cs
    + (count_between 21 40 cs
        + (count_between 41 60 cs + (count_between 61 80 cs + count_between 81 100 cs)))

-- What a summary says of the rows that it counts.
pub record AddsUp (rows : List Incident) (s : TelemetrySummary) : Type 0 where
  pub all : s.total ≡ length rows
  pub statuses : sum_values s.by_status ≡ s.total
  pub outcomes : s.accepted + s.needs_human_review ≡ length (keep is_diagnosed rows)
  pub decisions : sum_values s.hitl_decisions ≡ length (keep is_decided rows)
  pub distribution :
      All IsPercent (confidences rows) → sum s.confidence_distribution ≡ s.confidence_count
  pub tokens : sum_values s.tokens_by_agent ≡ s.total_tokens
