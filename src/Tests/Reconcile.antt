-- ===== src/Tests/Reconcile.antt =====
-- The Release loop at the sample release.
use Prim.Native.Nat.{min}
use poc_controller.Prelude.{
  false, ℕ, String, Bool, true, false, not, ◌&&◌, ◌*◌, ◌≤◌, ◌≡◌, ◌≢◌, ◌↔◌, refl, arith, is_none,
  Option, none, some, List, [], ◌∷◌, All, Result, ok,
}
use poc_controller.Api.{DependencyReference}
use poc_controller.Status.Conditions.Memory.{memory}
use poc_controller.Reconcile.Outcome.{no_op, failed_transient, no_phases}
use poc_controller.Reconcile.Verdict.{verdict, expected_verdict}
use poc_controller.Reconcile.World.{World, St}
use poc_controller.Reconcile.Counters.{
  update_release_failure_counters, update_failure_counters, update_counters_lem,
}
use poc_controller.Reconcile.Backoff.{
  compute_backoff, backoff_base_delay, backoff_max_delay, compute_backoff_bounds,
  compute_backoff_doubles,
}
use poc_controller.Reconcile.Release.Attempt.Coherence.{is_applied}
use poc_controller.Reconcile.Release.Deletion.{contains_finalizer, handle_release_deletion}
use poc_controller.Reconcile.Release.Deletion.Laws.{
  may_release, is_final, handle_release_deletion_lem,
}
use poc_controller.Reconcile.Release.Depends.{check_depends_on}
use poc_controller.Reconcile.Release.Depends.Laws.{IsSatisfied, check_depends_on_iff}
use poc_controller.Reconcile.Release.Loop.{attempt_and_commit, requeue_in, reconcile_loaded}
use poc_controller.Reconcile.Release.Loop.Status.{
  the_attempt, outcome, final, attempt_and_commit_verdict,
}
use poc_controller.Reconcile.Release.Loop.Owned.{owned, retry_at, attempt_and_commit_retry}
use poc_controller.Reconcile.Release.Loop.Gate.{reconcile_loaded-Untouched}
use poc_controller.Reconcile.Release.Loop.Idle.{attempt_and_commit_idle, next}
use poc_controller.Tests.Sample.{world, state, release, old_entry}

applies : is_applied (outcome world 300 state) ≡ true
unfolding attempt_and_commit poc_controller.Apply.Impersonate.build_impersonation_config
    poc_controller.Apply.Impersonate.new_impersonated_client
    poc_controller.Apply.Prune.is_safe_to_delete poc_controller.Apply.Prune.join
    poc_controller.Apply.Prune.prune poc_controller.Apply.Prune.prune_entry
    poc_controller.Apply.Prune.prune_loop poc_controller.Apply.Ssa.apply
    poc_controller.Apply.Ssa.count_actions poc_controller.Core.marshal_json
    poc_controller.Core.parse_api_version poc_controller.Core.resource_string
    poc_controller.Core.to_unstructured poc_controller.Inventory.compute_digest
    poc_controller.Inventory.compute_stale_set poc_controller.Inventory.entry_less
    poc_controller.Inventory.k8s_identity_equal poc_controller.Prelude.Sort.insert_stable
    poc_controller.Prelude.Sort.sort_stable poc_controller.Reconcile.Backoff.compute_backoff
    poc_controller.Reconcile.Counters.update_release_failure_counters
    poc_controller.Reconcile.Release.Attempt.and_then
    poc_controller.Reconcile.Release.Attempt.apply_stage
    poc_controller.Reconcile.Release.Attempt.attempt
    poc_controller.Reconcile.Release.Attempt.compute_release_digests
    poc_controller.Reconcile.Release.Attempt.conclude
    poc_controller.Reconcile.Release.Attempt.digest_stage
    poc_controller.Reconcile.Release.Attempt.fetch_stage
    poc_controller.Reconcile.Release.Attempt.give_up
    poc_controller.Reconcile.Release.Attempt.navigate_stage
    poc_controller.Reconcile.Release.Attempt.no_op_stage
    poc_controller.Reconcile.Release.Attempt.render_stage
    poc_controller.Reconcile.Release.Commit.commit
    poc_controller.Reconcile.Release.Commit.commit_status
    poc_controller.Reconcile.Release.Identity.build_release_apply_client
    poc_controller.Reconcile.Release.Identity.impersonate
    poc_controller.Reconcile.Release.Identity.resolve_effective_sa
    poc_controller.Prelude.Paths.clean_components poc_controller.Prelude.Paths.join_slash
    poc_controller.Reconcile.Release.Path.resolve_package_path
    poc_controller.Prelude.Paths.split_slash poc_controller.Reconcile.Release.Applying.after_apply
    poc_controller.Reconcile.Release.Applying.apply_and_prune_release
    poc_controller.Reconcile.Release.Applying.apply_phase
    poc_controller.Reconcile.Release.Phases.fetch_release_artifact
    poc_controller.Reconcile.Release.Phases.is_resolution_error_msg
    poc_controller.Reconcile.Release.Phases.navigate_release_path
    poc_controller.Reconcile.Release.Applying.prune_phase
    poc_controller.Reconcile.Release.Applying.release_backoff
    poc_controller.Reconcile.Release.Phases.render_error_reason
    poc_controller.Reconcile.Release.Phases.render_release_package
    poc_controller.Reconcile.Release.Phases.resolve_release_source
    poc_controller.Reconcile.Release.Phases.to_unstructured_slice
    poc_controller.Reconcile.World.call poc_controller.Reconcile.World.mark
    poc_controller.Reconcile.World.set_release poc_controller.Source.format_for_kind
    poc_controller.Source.is_permanent_source_error poc_controller.Source.new_source_object
    poc_controller.Source.resolve poc_controller.Status.Conditions.Memory.find
    poc_controller.Status.Conditions.clear_drifted poc_controller.Status.Conditions.mark_not_ready
    poc_controller.Status.Conditions.mark_ready poc_controller.Status.Conditions.mark_reconciling
    poc_controller.Status.Conditions.mark_stalled poc_controller.Status.Counters.ensure_counters
    poc_controller.Status.Counters.increment_counter poc_controller.Status.Counters.reset_counter
    poc_controller.Status.Digests.config_digest poc_controller.Status.Digests.is_no_op
    poc_controller.Status.Digests.render_digest poc_controller.Status.Digests.resource_less
    poc_controller.Status.History.new_failure_entry poc_controller.Status.History.new_success_entry
    poc_controller.Status.History.next_sequence poc_controller.Status.History.record_history_entry
    poc_controller.Status.Conditions.Memory.mark poc_controller.Status.Conditions.Memory.delete
    poc_controller.Status.Conditions.Memory.mark_reconciling poc_controller.Apply.Prune.is_owned
    poc_controller.Core.is_opm_managed_by poc_controller.Core.read_label
applies = refl

source_digest : (the_attempt world 300 state).locals.digests.source ≡ "sha256:1"
unfolding attempt_and_commit poc_controller.Apply.Impersonate.build_impersonation_config
    poc_controller.Apply.Impersonate.new_impersonated_client
    poc_controller.Apply.Prune.is_safe_to_delete poc_controller.Apply.Prune.join
    poc_controller.Apply.Prune.prune poc_controller.Apply.Prune.prune_entry
    poc_controller.Apply.Prune.prune_loop poc_controller.Apply.Ssa.apply
    poc_controller.Apply.Ssa.count_actions poc_controller.Core.marshal_json
    poc_controller.Core.parse_api_version poc_controller.Core.resource_string
    poc_controller.Core.to_unstructured poc_controller.Inventory.compute_digest
    poc_controller.Inventory.compute_stale_set poc_controller.Inventory.entry_less
    poc_controller.Inventory.k8s_identity_equal poc_controller.Prelude.Sort.insert_stable
    poc_controller.Prelude.Sort.sort_stable poc_controller.Reconcile.Backoff.compute_backoff
    poc_controller.Reconcile.Counters.update_release_failure_counters
    poc_controller.Reconcile.Release.Attempt.and_then
    poc_controller.Reconcile.Release.Attempt.apply_stage
    poc_controller.Reconcile.Release.Attempt.attempt
    poc_controller.Reconcile.Release.Attempt.compute_release_digests
    poc_controller.Reconcile.Release.Attempt.conclude
    poc_controller.Reconcile.Release.Attempt.digest_stage
    poc_controller.Reconcile.Release.Attempt.fetch_stage
    poc_controller.Reconcile.Release.Attempt.give_up
    poc_controller.Reconcile.Release.Attempt.navigate_stage
    poc_controller.Reconcile.Release.Attempt.no_op_stage
    poc_controller.Reconcile.Release.Attempt.render_stage
    poc_controller.Reconcile.Release.Commit.commit
    poc_controller.Reconcile.Release.Commit.commit_status
    poc_controller.Reconcile.Release.Identity.build_release_apply_client
    poc_controller.Reconcile.Release.Identity.impersonate
    poc_controller.Reconcile.Release.Identity.resolve_effective_sa
    poc_controller.Prelude.Paths.clean_components poc_controller.Prelude.Paths.join_slash
    poc_controller.Reconcile.Release.Path.resolve_package_path
    poc_controller.Prelude.Paths.split_slash poc_controller.Reconcile.Release.Applying.after_apply
    poc_controller.Reconcile.Release.Applying.apply_and_prune_release
    poc_controller.Reconcile.Release.Applying.apply_phase
    poc_controller.Reconcile.Release.Phases.fetch_release_artifact
    poc_controller.Reconcile.Release.Phases.is_resolution_error_msg
    poc_controller.Reconcile.Release.Phases.navigate_release_path
    poc_controller.Reconcile.Release.Applying.prune_phase
    poc_controller.Reconcile.Release.Applying.release_backoff
    poc_controller.Reconcile.Release.Phases.render_error_reason
    poc_controller.Reconcile.Release.Phases.render_release_package
    poc_controller.Reconcile.Release.Phases.resolve_release_source
    poc_controller.Reconcile.Release.Phases.to_unstructured_slice
    poc_controller.Reconcile.World.call poc_controller.Reconcile.World.mark
    poc_controller.Reconcile.World.set_release poc_controller.Source.format_for_kind
    poc_controller.Source.is_permanent_source_error poc_controller.Source.new_source_object
    poc_controller.Source.resolve poc_controller.Status.Conditions.Memory.find
    poc_controller.Status.Conditions.clear_drifted poc_controller.Status.Conditions.mark_not_ready
    poc_controller.Status.Conditions.mark_ready poc_controller.Status.Conditions.mark_reconciling
    poc_controller.Status.Conditions.mark_stalled poc_controller.Status.Counters.ensure_counters
    poc_controller.Status.Counters.increment_counter poc_controller.Status.Counters.reset_counter
    poc_controller.Status.Digests.config_digest poc_controller.Status.Digests.is_no_op
    poc_controller.Status.Digests.render_digest poc_controller.Status.Digests.resource_less
    poc_controller.Status.History.new_failure_entry poc_controller.Status.History.new_success_entry
    poc_controller.Status.History.next_sequence poc_controller.Status.History.record_history_entry
    poc_controller.Status.Conditions.Memory.mark poc_controller.Status.Conditions.Memory.delete
    poc_controller.Status.Conditions.Memory.mark_reconciling poc_controller.Apply.Prune.is_owned
    poc_controller.Core.is_opm_managed_by poc_controller.Core.read_label
source_digest = refl

source_set : (the_attempt world 300 state).locals.digests.source ≢ ""
source_set e = cc (source_digest)

-- The second attempt at the sample release does nothing.
idle_example :
    (outcome world 300 (next world 300 state) ≡ no_op)
    × ((attempt_and_commit world 300 (next world 300 state)).1.cluster
        ≡ (next world 300 state).cluster)
    × ((attempt_and_commit world 300 (next world 300 state)).0 ≡ ok (requeue_in 300))
idle_example = attempt_and_commit_idle world 300 state applies source_set

verdict_example :
    verdict memory (final world 300 state).status.conditions
    ≡ expected_verdict (outcome world 300 state)
verdict_example = attempt_and_commit_verdict world 300 state

retry_example :
    ((attempt_and_commit world 300 state).0
      ≡ ok (requeue_in (the_attempt world 300 state).requeue_after))
    × ((final world 300 state).status.next_retry_at
        ≡ retry_at world (outcome world 300 state) (the_attempt world 300 state).requeue_after)
retry_example = attempt_and_commit_retry world 300 state

deletion_example :
    (contains_finalizer (handle_release_deletion world state).1.rel
      ≡ not (may_release world (old_entry ∷ []) state))
    × (is_final (handle_release_deletion world state).0 ≡ (
        may_release world (old_entry ∷ []) state
        && is_none (world.patch_metadata (handle_release_deletion world state).1.rel)))
deletion_example = handle_release_deletion_lem world state refl

-- A release that is suspended.
abbrev suspended : St Bool
suspended = record state {
  rel = record release { spec = record (release.spec) { suspend = true } };
}

gate_example :
    ((reconcile_loaded world suspended).1.cluster ≡ true)
    × (owned (reconcile_loaded world suspended).1.rel.status ≡ owned release.status)
gate_example = reconcile_loaded-Untouched world suspended refl

abbrev dependency : DependencyReference
dependency = record { name = "app"; namespace = "team" }

depends_example :
    (check_depends_on memory world.get_release "team" (dependency ∷ []) ≡ ok "")
    ↔ All (IsSatisfied memory world.get_release "team") (dependency ∷ [])
depends_example = check_depends_on_iff memory world.get_release "team" (dependency ∷ [])

counters_example :
    (update_release_failure_counters none failed_transient no_phases
      ≡ some (record { reconcile = 1; apply = 0; prune = 0; drift = 0 }))
    × (update_failure_counters none failed_transient no_phases
        ≡ some (record { reconcile = 1; apply = 0; prune = 0; drift = 0 }))
counters_example = update_counters_lem none failed_transient no_phases

bounds_example : (backoff_base_delay ≤ compute_backoff 9) × (compute_backoff 9 ≤ backoff_max_delay)
bounds_example = compute_backoff_bounds 9 (omega arith)

doubles_example :
    (compute_backoff 1 ≡ backoff_base_delay)
    × (compute_backoff 5 ≡ min (2 * compute_backoff 4) backoff_max_delay)
doubles_example = compute_backoff_doubles 3 (omega arith)
