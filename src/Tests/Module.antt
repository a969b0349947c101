-- ===== src/Tests/Module.antt =====
-- The ModuleRelease loop at a sample release, and the conditions after some Mark calls.
use poc_controller.Prelude.{
  ℕ, String, Bool, true, false, not, ◌&&◌, ◌≡◌, ◌≢◌, ◌↔◌, refl, is_none, Option, none, some, List,
  [], ◌∷◌, Result, ok,
}
use poc_controller.Api.{ModuleRelease}
use poc_controller.Status.Conditions.Memory.{memory}
use poc_controller.Status.Conditions.Laws.{stalled, ready, run_marks}
use poc_controller.Reconcile.Outcome.{no_op}
use poc_controller.Reconcile.Verdict.{verdict, expected_verdict, step_verdicts, verdict-run_marks}
use poc_controller.Reconcile.Release.Attempt.Coherence.{is_applied}
use poc_controller.Reconcile.Release.Deletion.Laws.{is_final}
use poc_controller.Reconcile.Release.Loop.{requeue_in}
use poc_controller.Reconcile.Module.World.{ModuleWorld, ModuleState}
use poc_controller.Reconcile.Module.Deletion.{owned_by_module, handle_deletion}
use poc_controller.Reconcile.Module.Deletion.Laws.{may_finish, handle_deletion_lem}
use poc_controller.Reconcile.Module.Loop.{has_finalizer, module_attempt_and_commit}
use poc_controller.Reconcile.Module.Loop.Status.{
  the_module_attempt, final_module, owned_objects, module_attempt_and_commit_verdict,
}
use poc_controller.Reconcile.Module.Loop.Recorded.{IsRecorded, module_attempt_and_commit-owned}
use poc_controller.Reconcile.Module.Loop.Idle.{
  IsUnchanged, next_state, module_attempt_no_op_iff, module_attempt_and_commit_idle,
}
use poc_controller.Tests.Sample.{release, client, resource_manager, entry, encoding}

abbrev module_release : ModuleRelease
module_release = record {
  metadata = release.metadata;
  spec = record {
    suspend = false;
    module_ref = record { path = "example.com/app"; version = "v1.2.0" };
    values = some "{}";
    prune = true;
    service_account_name = "";
    rollout = none;
  };
  status = record {
    observed_generation = 0;
    release_uuid = "";
    conditions = [];
    last_attempted_action = "";
    last_attempted_at = none;
    last_attempted_duration = none;
    last_attempted_source_digest = "";
    last_attempted_config_digest = "";
    last_attempted_render_digest = "";
    last_applied_at = none;
    last_applied_source_digest = "";
    last_applied_config_digest = "";
    last_applied_render_digest = "";
    failure_counters = none;
    inventory = release.status.inventory;
    history = [];
    next_retry_at = none;
  };
}

abbrev module_world : ModuleWorld Bool
module_world = record {
  conditions = memory;
  encoding = encoding;
  canonical = λ raw. some raw;
  quote = λ s. s;
  get_module_release = λ ns name. ok module_release;
  patch_metadata = λ mr. none;
  patch_status = λ mr. none;
  render_module = λ name ns ref values.
      ok (record { resources = []; inventory_entries = entry ∷ []; warnings = [] });
  now = 2;
  history_now = 2;
  retry_now = 2;
  since = 1;
  client = client;
  resource_manager = resource_manager;
  default_service_account = "";
  has_rest_config = false;
  read_service_account = λ ns name. none;
  new_client = λ config. ok client;
  new_resource_manager = λ c. resource_manager;
}

abbrev module_state : ModuleState Bool
module_state = record { mr = module_release; cluster = true; log = [] }

module_applies : is_applied (the_module_attempt module_world module_state).locals.outcome ≡ true
unfolding poc_controller.Apply.Impersonate.build_impersonation_config
    poc_controller.Apply.Impersonate.new_impersonated_client
    poc_controller.Apply.Prune.is_safe_to_delete poc_controller.Apply.Prune.join
    poc_controller.Apply.Prune.prune poc_controller.Apply.Prune.prune_entry
    poc_controller.Apply.Prune.prune_loop poc_controller.Apply.Ssa.apply
    poc_controller.Apply.Ssa.count_actions poc_controller.Core.marshal_json
    poc_controller.Core.parse_api_version poc_controller.Core.resource_string
    poc_controller.Core.to_unstructured poc_controller.Inventory.compute_digest
    poc_controller.Inventory.compute_stale_set poc_controller.Inventory.entry_less
    poc_controller.Inventory.k8s_identity_equal poc_controller.Prelude.Sort.insert_stable
    poc_controller.Prelude.Sort.sort_stable poc_controller.Reconcile.Backoff.compute_backoff
    poc_controller.Reconcile.Release.Identity.resolve_effective_sa
    poc_controller.Reconcile.Release.Phases.to_unstructured_slice
    poc_controller.Status.Conditions.Memory.find poc_controller.Status.Conditions.clear_drifted
    poc_controller.Status.Conditions.mark_not_ready poc_controller.Status.Conditions.mark_ready
    poc_controller.Status.Conditions.mark_reconciling poc_controller.Status.Conditions.mark_stalled
    poc_controller.Status.Counters.ensure_counters poc_controller.Status.Counters.increment_counter
    poc_controller.Status.Counters.reset_counter poc_controller.Status.Digests.config_digest
    poc_controller.Status.Digests.is_no_op poc_controller.Status.Digests.render_digest
    poc_controller.Status.Digests.resource_less poc_controller.Status.History.new_failure_entry
    poc_controller.Status.History.new_success_entry poc_controller.Status.History.next_sequence
    poc_controller.Status.History.record_history_entry poc_controller.Status.Conditions.Memory.mark
    poc_controller.Status.Conditions.Memory.delete
    poc_controller.Status.Conditions.Memory.mark_reconciling poc_controller.Apply.Prune.is_owned
    poc_controller.Core.is_opm_managed_by poc_controller.Core.read_label
    poc_controller.Reconcile.Module.World.annotate poc_controller.Reconcile.Module.World.emit
    poc_controller.Reconcile.Module.Applying.is_resolution_error
    poc_controller.Reconcile.Module.Applying.extract_release_uuid
    poc_controller.Reconcile.Module.Applying.detect_module_drift
    poc_controller.Reconcile.Module.Applying.fail_prune
    poc_controller.Reconcile.Module.Applying.prune_stale_resources
    poc_controller.Reconcile.Module.Applying.build_apply_client
    poc_controller.Reconcile.Module.Attempt.conclude_module
    poc_controller.Reconcile.Module.Attempt.fail_apply
    poc_controller.Reconcile.Module.Attempt.apply_module
    poc_controller.Reconcile.Module.Attempt.start_apply
    poc_controller.Reconcile.Module.Attempt.plan_module
    poc_controller.Reconcile.Module.Attempt.convert_module
    poc_controller.Reconcile.Module.Attempt.digest_module
    poc_controller.Reconcile.Module.Attempt.module_attempt poc_controller.Apply.Drift.detect_drift
    poc_controller.Status.Conditions.mark_module_resolved
    poc_controller.Status.Conditions.mark_drifted poc_controller.Status.Digests.module_source_digest
module_applies = refl

module_verdict_example :
    verdict memory (final_module module_world module_state).status.conditions
    ≡ expected_verdict (the_module_attempt module_world module_state).locals.outcome
module_verdict_example = module_attempt_and_commit_verdict module_world module_state

module_owned_example :
    (is_applied (the_module_attempt module_world module_state).locals.outcome ≡ false
      → owned_objects (final_module module_world module_state).status
        ≡ owned_objects module_release.status)
    × (is_applied (the_module_attempt module_world module_state).locals.outcome ≡ true
        → IsRecorded module_world module_release
            (owned_objects (final_module module_world module_state).status))
    × ((final_module module_world module_state).spec ≡ module_release.spec)
    × ((final_module module_world module_state).metadata ≡ module_release.metadata)
module_owned_example = module_attempt_and_commit-owned module_world module_state

module_no_op_example :
    ((the_module_attempt module_world module_state).locals.outcome ≡ no_op)
    ↔ IsUnchanged module_world module_release
module_no_op_example = module_attempt_no_op_iff module_world module_state

module_idle_example :
    ((the_module_attempt module_world (next_state module_world module_state)).locals.outcome
      ≡ no_op)
    × ((module_attempt_and_commit module_world (next_state module_world module_state)).1.cluster
        ≡ (next_state module_world module_state).cluster)
    × ((module_attempt_and_commit module_world (next_state module_world module_state)).0
        ≡ ok (requeue_in 0))
module_idle_example = module_attempt_and_commit_idle module_world module_state module_applies

module_deletion_example :
    (has_finalizer (handle_deletion module_world module_state).1.mr
      ≡ not (may_finish module_world (owned_by_module module_world module_release) module_state))
    × (is_final (handle_deletion module_world module_state).0 ≡ (
        may_finish module_world (owned_by_module module_world module_release) module_state
        && is_none (module_world.patch_metadata (handle_deletion module_world module_state).1.mr)))
module_deletion_example = handle_deletion_lem module_world module_state refl

verdict_marks_example :
    verdict memory (run_marks memory (stalled "RenderFailed" "no" ∷ ready "yes" ∷ []) [])
    ≡ step_verdicts (stalled "RenderFailed" "no" ∷ ready "yes" ∷ []) (verdict memory [])
verdict_marks_example = verdict-run_marks memory (stalled "RenderFailed" "no" ∷ ready "yes" ∷ []) []
