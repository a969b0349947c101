-- ===== src/Reconcile/Module/Commit.antt =====
-- The deferred status commit of ReconcileModuleRelease in internal/reconcile/modulerelease.go.
use poc_controller.Prelude.{
  ℕ, not, none, some, length, lt64, is_empty, ◌+◌, ◌%◌, ◌^◌, if◌then◌else◌,
}
use poc_controller.Api.{ModuleRelease, ModuleReleaseStatus}
use poc_controller.Inventory.{compute_digest}
use poc_controller.Status.Conditions.{mark_ready}
use poc_controller.Status.History.{record_history_entry, new_success_entry, new_failure_entry}
use poc_controller.Reconcile.Counters.{update_failure_counters}
use poc_controller.Reconcile.Release.Commit.{Locals, is_no_op_outcome, next_revision}
use poc_controller.Reconcile.Module.World.{ModuleWorld, ModuleState, patch_status, emit}

module _ {C : Type 0} (w : ModuleWorld C) (l : Locals) where
  -- `mr.Status.ObservedGeneration = ...` and `mr.Status.LastAttempted... = ...`
  module_record_attempt : ℕ → ModuleReleaseStatus → ModuleReleaseStatus
  module_record_attempt generation st = record st {
    observed_generation = generation;
    last_attempted_action = "reconcile";
    last_attempted_at = some w.now;
    last_attempted_duration = some w.since;
    last_attempted_source_digest = l.digests.source;
    last_attempted_config_digest = l.digests.config;
    last_attempted_render_digest = l.digests.render;
  }

  -- the branch `if reconciled`
  module_record_success : ModuleReleaseStatus → ModuleReleaseStatus
  module_record_success st =
      let digest = compute_digest w.encoding l.new_entries in
      let count = length l.new_entries in
      record st {
        last_applied_at = some w.now;
        last_applied_source_digest = l.digests.source;
        last_applied_config_digest = l.digests.config;
        last_applied_render_digest = l.digests.render;
        inventory = some (record {
          revision = next_revision st.inventory;
          digest = digest;
          count = count;
          entries = l.new_entries;
        });
        history = record_history_entry st.history (
            new_success_entry w.history_now "reconcile" "complete"
              (record (l.digests) { inventory = digest }) count);
      }

  -- the branch `else if errMsg != ""`
  module_record_failure : ModuleReleaseStatus → ModuleReleaseStatus
  module_record_failure st =
      if not (is_empty l.err_msg)
      then record st {
        history =
            record_history_entry st.history
              (new_failure_entry w.history_now "reconcile" l.err_msg l.digests);
      }
      else st

  -- the counters and the time of the next retry
  module_record_counters : ModuleReleaseStatus → ModuleReleaseStatus
  module_record_counters st = record st {
    failure_counters = update_failure_counters st.failure_counters l.outcome l.phases;
    next_retry_at =
        if lt64 0 l.retry_after then some ((w.retry_now + l.retry_after) % 2 ^ 64) else none;
  }

  -- the status that the commit writes
  unfoldable pub module_commit_status : ModuleRelease → ModuleReleaseStatus
  unfolding module_record_attempt module_record_success module_record_failure module_record_counters
  module_commit_status mr =
      if is_no_op_outcome l.outcome
      then record (mr.status) {
        conditions = mark_ready w.conditions "Reconciliation succeeded" mr.status.conditions;
        failure_counters = update_failure_counters mr.status.failure_counters l.outcome l.phases;
        next_retry_at = none;
      }
      else (let st = module_record_attempt mr.metadata.generation mr.status in
          module_record_counters
            (if l.reconciled then module_record_success st else module_record_failure st))

  -- the deferred function; an error of the patch is only logged
  unfoldable pub module_commit : ModuleState C → ModuleState C
  unfolding module_commit_status
  module_commit s =
      let mr = record (s.mr) { status = module_commit_status s.mr } in
      emit (patch_status mr) (record s { mr = mr })
