-- ===== src/Reconcile/Module/Attempt.antt =====
-- The body of ReconcileModuleRelease of internal/reconcile/modulerelease.go from MarkReconciling on, up
-- to the deferred commit.
pub mod Coherence
pub mod Plan
use poc_controller.Prelude.{
  ℕ, String, Bool, true, false, not, ◌&&◌, none, some, List, [], ◌^^◌, is_empty, inc64, Error, ok,
  err, if◌then◌else◌,
}
use poc_controller.Api.{ModuleRelease, InventoryEntry}
use poc_controller.Core.{Unstructured}
use poc_controller.Inventory.{compute_digest, compute_stale_set}
use poc_controller.Status.Conditions.{
  mark_reconciling, mark_stalled, mark_not_ready, mark_ready, mark_module_resolved, clear_drifted,
}
use poc_controller.Status.Digests.{
  DigestSet, is_no_op, module_source_digest, config_digest, render_digest,
}
use poc_controller.Apply.Ssa
use poc_controller.Apply.Ssa.{ApplyResult, ResourceManager}
use poc_controller.Apply.Prune.{Client}
use poc_controller.Apply.Impersonate.{is_forbidden}
use poc_controller.Reconcile.Outcome.{
  Outcome, PhaseOutcomes, no_phases, no_op, failed_transient, failed_stalled,
}
use poc_controller.Reconcile.Backoff.{compute_backoff, stalled_recheck_interval}
use poc_controller.Reconcile.World.{RenderResult, normal, warning}
use poc_controller.Reconcile.Release.Identity.{resolve_effective_sa}
use poc_controller.Reconcile.Release.Phases.{to_unstructured_slice}
use poc_controller.Reconcile.Release.Applying.{force_conflicts, inventory_entries}
use poc_controller.Reconcile.Release.Commit.{Locals}
use poc_controller.Reconcile.Module.World.{ModuleWorld, ModuleState, Effect, event, emit, annotate}
use poc_controller.Reconcile.Module.Applying.{
  StalePrune, is_resolution_error, extract_release_uuid, reconcile_failure_count, inventory_digest,
  detect_module_drift, prune_stale_resources, build_apply_client,
}

-- What the body leaves for the deferred function, and its requeue delay.
pub record ModuleAttempt (C : Type 0) : Type 0 where
  pub locals : Locals
  pub requeue_after : ℕ
  pub state : ModuleState C

module _ {C : Type 0} (w : ModuleWorld C) where
  open w use {conditions}

  -- The assignments of a failure, and the return that follows them.
  abbrev pub end_failed :
      Outcome
      → String
      → ℕ
      → DigestSet
      → List InventoryEntry
      → PhaseOutcomes
      → ModuleState C
      → ModuleAttempt C
  end_failed outcome msg delay digests entries ph s = record {
    locals = record {
      outcome = outcome;
      digests = digests;
      reconciled = false;
      new_entries = entries;
      err_msg = msg;
      retry_after = delay;
      phases = ph;
    };
    requeue_after = delay;
    state = s;
  }

  -- `ComputeBackoff(reconcileFailureCount(mr.Status.FailureCounters) + 1)`
  abbrev next_backoff : ModuleState C → ℕ
  next_backoff s = compute_backoff (inc64 (reconcile_failure_count s.mr.status.failure_counters))

  -- what follows pruneStaleResources
  unfoldable pub conclude_module :
      DigestSet → List InventoryEntry → PhaseOutcomes → StalePrune × ModuleState C → ModuleAttempt C
  conclude_module digests entries ph (r, s) = elim r.error [
    | some e ↦
        end_failed r.outcome e.msg (next_backoff s) digests entries
          (record ph { prune_failed = true }) s
    | none ↦
        if not r.reconciled
        then end_failed r.outcome "" stalled_recheck_interval digests entries
            (record ph { prune_failed = true }) s
        else record {
          locals = record {
            outcome = r.outcome;
            digests = digests;
            reconciled = true;
            new_entries = entries;
            err_msg = "";
            retry_after = 0;
            phases = ph;
          };
          requeue_after = 0;
          state =
              emit (event normal "ReconciliationSucceeded" "Reconcile")
                (annotate (mark_ready conditions "Reconciliation succeeded") s);
        }
  ]

  -- the branch on an error of apply.Apply
  unfoldable pub fail_apply :
      String → Error → DigestSet → PhaseOutcomes → ModuleState C → ModuleAttempt C
  fail_apply sa e digests ph s =
      let s1 = emit (event warning "ApplyFailed" "Apply") s in
      if not (is_empty sa) && is_forbidden e
      then end_failed failed_stalled e.msg stalled_recheck_interval digests [] ph
          (annotate (mark_stalled conditions "ImpersonationFailed" e.msg) s1)
      else end_failed failed_transient e.msg (next_backoff s1) digests [] ph
          (annotate (mark_not_ready conditions "ApplyFailed" e.msg) s1)

  -- from apply.Apply on; `ph` has driftRan and applyRan set
  unfoldable pub apply_module :
      ResourceManager C
      → Client C
      → RenderResult
      → List Unstructured
      → List InventoryEntry
      → DigestSet
      → PhaseOutcomes
      → ModuleState C
      → ModuleAttempt C
  unfolding conclude_module fail_apply resolve_effective_sa
  apply_module rm client result resources stale digests ph s =
      let force = force_conflicts s.mr.spec.rollout in
      let (sa, _) = resolve_effective_sa s.mr.spec.service_account_name w.default_service_account in
      let (answer, c) = Ssa.apply rm resources force s.cluster in
      let s1 = emit (Effect.apply resources force) (record s { cluster = c }) in
      elim answer [
        | err e ↦ fail_apply sa e digests (record ph { apply_failed = true }) s1
        | ok counts ↦
            conclude_module digests result.inventory_entries (record ph { prune_ran = true })
              (prune_stale_resources w client stale sa
                (annotate (clear_drifted conditions) (emit (event normal "Applied" "Apply") s1)))
      ]

  -- from the stale set on
  unfoldable pub start_apply :
      RenderResult → List Unstructured → DigestSet → PhaseOutcomes → ModuleState C → ModuleAttempt C
  unfolding apply_module
  start_apply result resources digests ph s =
      let stale =
        compute_stale_set (inventory_entries s.mr.status.inventory) result.inventory_entries in
      elim (build_apply_client w s.mr) [
        | err e ↦
            end_failed failed_stalled e.msg stalled_recheck_interval digests [] ph
              (annotate (mark_stalled conditions "ImpersonationFailed" e.msg) s)
        | ok (rm, client) ↦
            apply_module rm client result resources stale digests (record ph { apply_ran = true }) s
      ]

  -- the digests of the last reconcile that applied
  abbrev pub last_module_digests : ModuleRelease → DigestSet
  last_module_digests mr = record {
    source = mr.status.last_applied_source_digest;
    config = mr.status.last_applied_config_digest;
    render = mr.status.last_applied_render_digest;
    inventory = inventory_digest mr.status.inventory;
  }

  -- `if uuid := extractReleaseUUID(resources); uuid != "" { ... }`
  abbrev pub set_uuid : List Unstructured → ModuleState C → ModuleState C
  set_uuid resources s =
      let uuid = extract_release_uuid resources in
      if not (is_empty uuid)
      then record s { mr = record (s.mr) { status = record (s.mr.status) { release_uuid = uuid } } }
      else s

  -- the planning phase, after the drift detection
  unfoldable pub plan_module :
      Bool → RenderResult → List Unstructured → DigestSet → Bool × ModuleState C → ModuleAttempt C
  unfolding start_apply
  plan_module idle result resources digests (drift_failed, s) =
      let ph : PhaseOutcomes = record (no_phases) {
        drift_ran = true;
        drift_failed = drift_failed;
      } in
      if idle
      then record {
        locals = record {
          outcome = no_op;
          digests = digests;
          reconciled = false;
          new_entries = [];
          err_msg = "";
          retry_after = 0;
          phases = ph;
        };
        requeue_after = 0;
        state = emit (event normal "NoOp" "Reconcile") s;
      }
      else start_apply result resources digests ph s

  -- from the conversion of the resources on
  unfoldable pub convert_module : RenderResult → DigestSet → ModuleState C → ModuleAttempt C
  unfolding plan_module detect_module_drift extract_release_uuid
  convert_module result digests s = elim (to_unstructured_slice result.resources) [
    | err e ↦
        end_failed failed_stalled ("converting resources: " ^^ e.msg) stalled_recheck_interval
          digests [] no_phases
          (annotate (mark_stalled conditions "ApplyFailed" ("converting resources: " ^^ e.msg)) s)
    | ok resources ↦
        let s1 = set_uuid resources s in
        plan_module (is_no_op digests (last_module_digests s1.mr)) result resources digests
          (detect_module_drift w resources s1)
  ]

  -- from MarkModuleResolved on
  unfoldable pub digest_module : RenderResult → DigestSet → ModuleState C → ModuleAttempt C
  unfolding convert_module
  digest_module result digests s =
      let ref = s.mr.spec.module_ref in
      let s1 = annotate (mark_module_resolved conditions (ref.path ^^ "@" ^^ ref.version)) s in
      elim (render_digest w.encoding result.resources) [
        | err e ↦
            end_failed failed_stalled ("computing render digest: " ^^ e.msg)
              stalled_recheck_interval digests [] no_phases
              (annotate
                (mark_stalled conditions "RenderFailed" ("computing render digest: " ^^ e.msg)) s1)
        | ok digest ↦
            convert_module result
              (record digests {
                render = digest;
                inventory = compute_digest w.encoding result.inventory_entries;
              })
              s1
      ]

  -- the reason of a render that fails
  abbrev pub render_reason : Error → String
  render_reason e = if is_resolution_error e then "ResolutionFailed" else "RenderFailed"

  -- the digests that do not need the render
  abbrev pub early_digests : ModuleRelease → DigestSet
  early_digests mr = record {
    source = module_source_digest w.encoding mr.spec.module_ref.path mr.spec.module_ref.version;
    config = config_digest w.encoding w.canonical mr.spec.values;
    render = "";
    inventory = "";
  }

  -- the body from MarkReconciling on
  unfoldable pub module_attempt : ModuleState C → ModuleAttempt C
  unfolding digest_module is_resolution_error
  module_attempt s =
      let s0 =
        annotate (mark_reconciling conditions "Progressing" "Reconciliation in progress") s in
      let digests = early_digests s0.mr in
      elim (w.render_module s0.mr.metadata.name s0.mr.metadata.namespace s0.mr.spec.module_ref
        s0.mr.spec.values) [
          | err e ↦ end_failed failed_stalled e.msg stalled_recheck_interval digests [] no_phases (
              annotate (mark_stalled conditions (render_reason e) e.msg)
                (emit (event warning (render_reason e) "Render") s0))
          | ok result ↦ digest_module result digests s0
        ]
