-- ===== src/Reconcile/Release/Attempt.antt =====
-- The body of ReconcileRelease of internal/reconcile/release.go from MarkReconciling on, up to the
-- deferred commit.
pub mod Marks
pub mod Coherence
pub mod Applied
pub mod Stages
use poc_controller.Prelude.{
  ℕ, ◌*◌, String, Bool, true, false, not, Option, none, some, List, [], ◌∷◌, ◌++◌, ◌==◌, ◌^^◌, eqb,
  is_empty, is_none, any_of, Error, Result, ok, err, wrap, if◌then◌else◌,
}
use poc_controller.Api.{Release, Inventory, InventoryEntry, Condition, SourceStatus}
use poc_controller.Core.{Resource}
use poc_controller.Inventory.{compute_digest}
use poc_controller.Status.Conditions.{
  ready_condition, mark_suspended, mark_not_ready, mark_reconciling, mark_ready, mark_stalled,
}
use poc_controller.Status.Digests.{DigestSet, is_no_op, render_digest, config_digest}
use poc_controller.Source.{ArtifactRef}
use poc_controller.Apply.Impersonate.{is_not_found}
use poc_controller.Reconcile.Outcome.{Outcome, PhaseOutcomes, no_phases, no_op}
use poc_controller.Reconcile.Backoff.{second}
use poc_controller.Reconcile.World.{
  World, St, Call, RenderResult, EventType, normal, warning, event, patch_status, patch_metadata,
  remove_all, call, mark, set_release, ReconcileResult,
}
use poc_controller.Reconcile.Release.Depends.{check_depends_on}
use poc_controller.Reconcile.Release.Phases.{
  PhaseFail, Phase, done, failed, stall, resolve_release_source, fetch_release_artifact,
  navigate_release_path, render_release_package,
}
use poc_controller.Reconcile.Release.Applying.{ApplyPruneResult, apply_and_prune_release}
use poc_controller.Reconcile.Release.Commit.{Locals, commit}

abbrev pub default_release_interval : ℕ
default_release_interval = 300 * second

-- What the body of ReconcileRelease leaves for the deferred function, and its requeue delay.
pub record Attempt (C : Type 0) : Type 0 where
  pub locals : Locals
  pub requeue_after : ℕ
  pub state : St C

abbrev pub no_digests : DigestSet
no_digests = record { source = ""; config = ""; render = ""; inventory = "" }

-- inventoryDigestRelease
abbrev pub inventory_digest_release : Option Inventory → String
inventory_digest_release none = ""
inventory_digest_release (some inv) = inv.digest

module _ {C : Type 0} (w : World C) where
  open w use {conditions}

  -- applyFail, and the return that follows it
  unfoldable pub give_up : PhaseFail → DigestSet → PhaseOutcomes → St C → Attempt C
  give_up f digests ph s = record {
    locals = record {
      outcome = f.outcome;
      digests = digests;
      reconciled = false;
      new_entries = [];
      err_msg = f.err_msg;
      retry_after = f.retry_after;
      phases = ph;
    };
    requeue_after = f.retry_after;
    state = s;
  }

  -- computeReleaseDigests; the release has no values, so the configuration is empty
  unfoldable pub compute_release_digests : RenderResult → DigestSet → St C → Phase DigestSet × St C
  compute_release_digests result digests s = elim (render_digest w.encoding result.resources) [
    | err e ↦ (
      failed (stall e.msg),
      mark (mark_stalled conditions "RenderFailed" ("computing render digest: " ^^ e.msg)) s,
    )
    | ok digest ↦ (
      done (record digests {
        render = digest;
        inventory = compute_digest w.encoding result.inventory_entries;
        config = config_digest w.encoding (λ raw. none) none;
      }),
      s,
    )
  ]

  -- the digests of the last reconcile that applied
  abbrev pub last_applied : Release → DigestSet
  last_applied rel = record {
    source = rel.status.last_applied_source_digest;
    config = rel.status.last_applied_config_digest;
    render = rel.status.last_applied_render_digest;
    inventory = inventory_digest_release rel.status.inventory;
  }

  -- `if fail != nil { applyFail(fail); return ... }`, and what follows where the phase passes
  unfoldable pub and_then :
      {A : Type 0} → Phase A × St C → DigestSet → (A → St C → Attempt C) → Attempt C
  unfolding give_up
  and_then (failed f, s) digests k = give_up f digests no_phases s
  and_then (done a, s) digests k = k a s

  -- from applyAndPruneRelease to the end
  unfoldable pub conclude :
      ℕ → DigestSet → Phase ApplyPruneResult × PhaseOutcomes × St C → Attempt C
  unfolding give_up
  conclude interval digests (failed f, ph, s) = give_up f digests ph s
  conclude interval digests (done r, ph, s) = record {
    locals = record {
      outcome = r.outcome;
      digests = digests;
      reconciled = true;
      new_entries = r.entries;
      err_msg = "";
      retry_after = 0;
      phases = ph;
    };
    requeue_after = interval;
    state =
        call (event normal "ReconciliationSucceeded" "Reconcile")
          (mark (mark_ready conditions "Reconciliation succeeded") s);
  }

  unfoldable pub apply_stage : ℕ → DigestSet → RenderResult → St C → Attempt C
  unfolding conclude
  apply_stage interval digests result s =
      conclude interval digests (apply_and_prune_release w result s)

  -- the test for a no-op
  unfoldable pub no_op_stage : ℕ → DigestSet → RenderResult → St C → Attempt C
  unfolding apply_stage
  no_op_stage interval digests result s =
      if is_no_op digests (last_applied s.rel)
      then record {
        locals = record {
          outcome = no_op;
          digests = digests;
          reconciled = false;
          new_entries = [];
          err_msg = "";
          retry_after = 0;
          phases = no_phases;
        };
        requeue_after = interval;
        state = call (event normal "NoOp" "Reconcile") s;
      }
      else apply_stage interval digests result s

  unfoldable pub digest_stage : ℕ → DigestSet → RenderResult → St C → Attempt C
  unfolding and_then no_op_stage compute_release_digests
  digest_stage interval digests result s =
      and_then (compute_release_digests result digests s) digests
        (λ digests' s'. no_op_stage interval digests' result s')

  unfoldable pub render_stage : ℕ → DigestSet → String → St C → Attempt C
  unfolding and_then digest_stage
  render_stage interval digests dir s =
      and_then (render_release_package w dir s) digests
        (λ result s'. digest_stage interval digests result s')

  unfoldable pub navigate_stage : ℕ → DigestSet → String → St C → Attempt C
  unfolding and_then render_stage
  navigate_stage interval digests dir s =
      and_then (navigate_release_path w dir s) digests
        (λ package_dir s'. render_stage interval digests package_dir s')

  -- `defer os.RemoveAll(extractDir)`, which runs before the status commit
  abbrev pub clean_up : String → Attempt C → Attempt C
  clean_up dir a = record a { state = call (remove_all dir) a.state }

  unfoldable pub fetch_stage : ℕ → ArtifactRef → DigestSet → St C → Attempt C
  unfolding and_then navigate_stage
  fetch_stage interval ref digests s =
      and_then (fetch_release_artifact w ref interval s) digests
        (λ dir s'. clean_up dir (navigate_stage interval digests dir s'))

  -- `rel.Status.Source = ...`
  abbrev pub set_source : ArtifactRef → St C → St C
  set_source ref s = record s {
    rel = record (s.rel) {
      status = record (s.rel.status) {
        source = some (record {
          ref = s.rel.spec.source_ref;
          artifact_revision = ref.revision;
          artifact_digest = ref.digest;
          artifact_url = ref.url;
        });
      };
    };
  }

  -- the body from MarkReconciling on
  unfoldable pub attempt : ℕ → St C → Attempt C
  unfolding and_then fetch_stage
  attempt interval s =
      let s0 = mark (mark_reconciling conditions "Progressing" "Reconciliation in progress") s in
      and_then (resolve_release_source w interval s0) no_digests (λ ref s1.
        fetch_stage interval ref (record (no_digests) { source = ref.digest }) (set_source ref s1))
