-- ===== src/Reconcile/Counters.antt =====
-- updateFailureCounters and updateReleaseFailureCounters of internal/reconcile.
use poc_controller.Prelude.{
  ℕ, ◌≡◌, String, Bool, true, false, Option, none, some, arith, inc64, if◌then◌else◌,
}
use poc_controller.Api.{FailureCounters}
use poc_controller.Status.Counters.{
  ensure_counters, increment_counter, reset_counter, counter_reconcile, counter_apply,
  counter_prune, counter_drift,
}
use poc_controller.Reconcile.Outcome.{
  Outcome, PhaseOutcomes, no_op, applied, applied_and_pruned, failed_transient, failed_stalled,
  is_failure,
}

-- `if ran { if failed { increment } else { reset } }`
count_phase : Bool → Bool → String → FailureCounters → FailureCounters
unfolding increment_counter reset_counter
count_phase ran failed field c =
    if ran then (if failed then increment_counter c field else reset_counter c field) else c

-- the switch on the outcome
count_outcome : Outcome → FailureCounters → FailureCounters
unfolding increment_counter reset_counter
count_outcome failed_transient c = increment_counter c counter_reconcile
count_outcome failed_stalled c = increment_counter c counter_reconcile
count_outcome applied c = reset_counter c counter_reconcile
count_outcome applied_and_pruned c = reset_counter c counter_reconcile
count_outcome no_op c = reset_counter c counter_reconcile

-- updateReleaseFailureCounters
unfoldable pub update_release_failure_counters :
    Option FailureCounters → Outcome → PhaseOutcomes → Option FailureCounters
unfolding ensure_counters count_phase count_outcome
update_release_failure_counters counters outcome ph =
    let c = ensure_counters counters in
    let c1 = count_phase ph.apply_ran ph.apply_failed counter_apply c in
    let c2 = count_phase ph.prune_ran ph.prune_failed counter_prune c1 in
    some (count_outcome outcome c2)

-- updateFailureCounters
unfoldable pub update_failure_counters :
    Option FailureCounters → Outcome → PhaseOutcomes → Option FailureCounters
unfolding ensure_counters count_phase count_outcome
update_failure_counters counters outcome ph =
    let c = ensure_counters counters in
    let c0 = count_phase ph.drift_ran ph.drift_failed counter_drift c in
    let c1 = count_phase ph.apply_ran ph.apply_failed counter_apply c0 in
    let c2 = count_phase ph.prune_ran ph.prune_failed counter_prune c1 in
    some (count_outcome outcome c2)

-- What a phase's counter becomes: a failure adds one, a success clears it, and a phase that did not
-- run leaves it.
abbrev pub next_count : Bool → Bool → ℕ → ℕ
next_count false failed n = n
next_count true true n = inc64 n
next_count true false n = 0

-- A missing set of counters counts from zero.
abbrev pub counts : Option FailureCounters → FailureCounters
counts none = record { reconcile = 0; apply = 0; prune = 0; drift = 0 }
counts (some c) = c

-- Each loop sets each counter from its own phase alone, and the reconcile counter from the outcome: a
-- failure, transient or stalled, adds one, anything else clears it. The Release loop leaves the drift
-- counter.
pub update_counters_lem :
    (c : Option FailureCounters) (outcome : Outcome) (ph : PhaseOutcomes)
    → (update_release_failure_counters c outcome ph
        ≡ some (record {
          reconcile = next_count true (is_failure outcome) (counts c).reconcile;
          apply = next_count ph.apply_ran ph.apply_failed (counts c).apply;
          prune = next_count ph.prune_ran ph.prune_failed (counts c).prune;
          drift = (counts c).drift;
        }))
      × (update_failure_counters c outcome ph
          ≡ some (record {
            reconcile = next_count true (is_failure outcome) (counts c).reconcile;
            apply = next_count ph.apply_ran ph.apply_failed (counts c).apply;
            prune = next_count ph.prune_ran ph.prune_failed (counts c).prune;
            drift = next_count ph.drift_ran ph.drift_failed (counts c).drift;
          }))
unfolding update_release_failure_counters update_failure_counters
update_counters_lem c outcome ph = ground arith
