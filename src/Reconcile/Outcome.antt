-- ===== src/Reconcile/Outcome.antt =====
-- internal/reconcile/outcome.go, and phaseOutcomes of modulerelease.go.
use poc_controller.Prelude.{String, Bool, true, false}

pub data Outcome : Type 0 where
  no_op applied applied_and_pruned failed_transient failed_stalled : Outcome

-- Outcome.MetricLabel
unfoldable pub metric_label : Outcome → String
metric_label no_op = "no_op"
metric_label applied = "applied"
metric_label applied_and_pruned = "applied_and_pruned"
metric_label failed_transient = "failed_transient"
metric_label failed_stalled = "failed_stalled"

abbrev pub is_failure : Outcome → Bool
is_failure failed_transient = true
is_failure failed_stalled = true
is_failure _ = false

-- Which phases ran and which of them failed.
pub record PhaseOutcomes : Type 0 where
  pub drift_ran : Bool
  pub drift_failed : Bool
  pub apply_ran : Bool
  pub apply_failed : Bool
  pub prune_ran : Bool
  pub prune_failed : Bool

abbrev pub no_phases : PhaseOutcomes
no_phases = record {
  drift_ran = false;
  drift_failed = false;
  apply_ran = false;
  apply_failed = false;
  prune_ran = false;
  prune_failed = false;
}
