-- ===== src/Reconcile/Release/Commit.antt =====
-- The deferred status commit of ReconcileRelease in internal/reconcile/release.go.
use poc_controller.Prelude.{
  ℕ, String, Bool, true, false, not, Option, none, some, List, length, lt64, inc64, is_empty, ◌+◌,
  ◌%◌, ◌^◌, if◌then◌else◌,
}
use poc_controller.Api.{Release, ReleaseStatus, Inventory, InventoryEntry}
use poc_controller.Inventory.{compute_digest}
use poc_controller.Status.Conditions.{mark_ready}
use poc_controller.Status.Digests.{DigestSet}
use poc_controller.Status.History.{record_history_entry, new_success_entry, new_failure_entry}
use poc_controller.Reconcile.Outcome.{Outcome, PhaseOutcomes, no_op}
use poc_controller.Reconcile.Counters.{update_release_failure_counters}
use poc_controller.Reconcile.World.{World, St, patch_status, call, set_release}

-- The variables of ReconcileRelease that the deferred function reads.
pub record Locals : Type 0 where
  pub outcome : Outcome
  pub digests : DigestSet
  pub reconciled : Bool
  pub new_entries : List InventoryEntry
  pub err_msg : String
  pub retry_after : ℕ
  pub phases : PhaseOutcomes

abbrev pub is_no_op_outcome : Outcome → Bool
is_no_op_outcome no_op = true
is_no_op_outcome _ = false

-- the new inventory's revision
abbrev pub next_revision : Option Inventory → ℕ
next_revision none = 1
next_revision (some inv) = inc64 inv.revision

module _ {C : Type 0} (w : World C) (l : Locals) where
  -- `rel.Status.LastAttempted... = ...`
  record_attempt : ReleaseStatus → ReleaseStatus
  record_attempt st = record st {
    last_attempted_action = "reconcile";
    last_attempted_at = some w.now;
    last_attempted_duration = some w.since;
    last_attempted_source_digest = l.digests.source;
    last_attempted_config_digest = l.digests.config;
    last_attempted_render_digest = l.digests.render;
  }

  -- the branch `if reconciled`
  record_success : ReleaseStatus → ReleaseStatus
  record_success st =
      let digest = compute_digest w.encoding l.new_entries in
      let count = length l.new_entries in
      record st {
        last_applied_at = some w.now;
        last_applied_source_digest = l.digests.source;
        last_applied_config_digest = l.digests.config;
        last_applied_render_digest = l.digests.render;
        inventory = some (record {
          revision = next_revision st.inventory;
          digest = digest;
          count = count;
          entries = l.new_entries;
        });
        history = record_history_entry st.history (
            new_success_entry w.history_now "reconcile" "complete"
              (record (l.digests) { inventory = digest }) count);
      }

  -- the branch `else if errMsg != ""`
  record_failure : ReleaseStatus → ReleaseStatus
  record_failure st =
      if not (is_empty l.err_msg)
      then record st {
        history =
            record_history_entry st.history
              (new_failure_entry w.history_now "reconcile" l.err_msg l.digests);
      }
      else st

  -- the counters and the time of the next retry
  record_counters : ReleaseStatus → ReleaseStatus
  record_counters st = record st {
    failure_counters = update_release_failure_counters st.failure_counters l.outcome l.phases;
    next_retry_at =
        if lt64 0 l.retry_after then some ((w.retry_now + l.retry_after) % 2 ^ 64) else none;
  }

  -- the status that the commit writes
  unfoldable pub commit_status : Release → ReleaseStatus
  unfolding record_attempt record_success record_failure record_counters
  commit_status rel =
      let st = record (rel.status) { observed_generation = rel.metadata.generation } in
      if is_no_op_outcome l.outcome
      then record st {
        conditions = mark_ready w.conditions "Reconciliation succeeded" st.conditions;
        failure_counters = update_release_failure_counters st.failure_counters l.outcome l.phases;
        next_retry_at = none;
      }
      else record_counters (
          if l.reconciled
          then record_success (record_attempt st)
          else record_failure (record_attempt st))

  -- the deferred function; an error of the patch is only logged
  unfoldable pub commit : St C → St C
  unfolding commit_status
  commit s =
      let rel = record (s.rel) { status = commit_status s.rel } in
      call (patch_status rel) (set_release rel s)
