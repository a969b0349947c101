-- ===== src/Reconcile/Module/Loop/Status.antt =====
-- What an attempt of ReconcileModuleRelease (internal/reconcile/modulerelease.go) leaves in the
-- release's status.
use poc_controller.Prelude.{
  ℕ, ◌+◌, ◌%◌, ◌^◌, false, ◌≡◌, refl, ap, sym, ◌∙◌, Option, none, some, ok, lt64, length, arith,
  if◌then◌else◌,
}
use poc_controller.Api.{ModuleRelease, ModuleReleaseStatus}
use poc_controller.Inventory.{compute_digest}
use poc_controller.Reconcile.Outcome.{Outcome, is_failure}
use poc_controller.Reconcile.Verdict.{verdict, expected_verdict, verdict-mark_ready}
use poc_controller.Reconcile.Release.Commit.{Locals, next_revision}
use poc_controller.Reconcile.Release.Attempt.Coherence.{is_applied}
use poc_controller.Reconcile.Release.Loop.{requeue_in}
use poc_controller.Reconcile.Release.Loop.Owned.{Owned}
use poc_controller.Reconcile.Module.World.{ModuleWorld, ModuleState, emit}
use poc_controller.Reconcile.Module.Attempt.{ModuleAttempt, module_attempt}
use poc_controller.Reconcile.Module.Attempt.Coherence.{
  verdict_left, IsSettled, IsSettled-module_attempt,
}
use poc_controller.Reconcile.Module.Commit.{module_commit_status, module_commit}
use poc_controller.Reconcile.Module.Loop.{module_attempt_and_commit}

-- What a status records of the objects that the release owns.
abbrev pub owned_objects : ModuleReleaseStatus → Owned
owned_objects st = record {
  inventory = st.inventory;
  source = st.last_applied_source_digest;
  config = st.last_applied_config_digest;
  render = st.last_applied_render_digest;
}

module _ {C : Type 0} (w : ModuleWorld C) where
  -- The inventory and the digests of an apply that succeeded.
  abbrev pub owned_objects_after : Locals → ModuleReleaseStatus → Owned
  owned_objects_after l st =
      if is_applied l.outcome
      then record {
        inventory = some (record {
          revision = next_revision st.inventory;
          digest = compute_digest w.encoding l.new_entries;
          count = length l.new_entries;
          entries = l.new_entries;
        });
        source = l.digests.source;
        config = l.digests.config;
        render = l.digests.render;
      }
      else owned_objects st

  module_commit_status-owned_objects :
      (l : Locals) (mr : ModuleRelease)
      → l.reconciled ≡ is_applied l.outcome
      → owned_objects (module_commit_status w l mr) ≡ owned_objects_after l mr.status
  unfolding module_commit_status
  module_commit_status-owned_objects l mr h = ground arith

  -- The time of the next retry.
  abbrev pub next_retry : Outcome → ℕ → Option ℕ
  next_retry outcome delay =
      if is_failure outcome
      then (if lt64 0 delay then some ((w.retry_now + delay) % 2 ^ 64) else none)
      else none

  module_commit_status-next_retry :
      (l : Locals) (mr : ModuleRelease)
      → (is_failure l.outcome ≡ false → l.retry_after ≡ 0)
      → (module_commit_status w l mr).next_retry_at ≡ next_retry l.outcome l.retry_after
  unfolding module_commit_status
  module_commit_status-next_retry l mr k = ground arith

  module_commit_status-release_uuid :
      (l : Locals) (mr : ModuleRelease)
      → (module_commit_status w l mr).release_uuid ≡ mr.status.release_uuid
  unfolding module_commit_status
  module_commit_status-release_uuid l mr = ground arith

  module_commit_status-verdict :
      (l : Locals) (mr : ModuleRelease)
      → verdict w.conditions mr.status.conditions ≡ verdict_left l.outcome
      → verdict w.conditions (module_commit_status w l mr).conditions ≡ expected_verdict l.outcome
  unfolding module_commit_status
  module_commit_status-verdict l mr h =
      ground (arith, verdict-mark_ready w.conditions mr.status.conditions)

module _ {C : Type 0} (w : ModuleWorld C) (s : ModuleState C) where
  abbrev pub the_module_attempt : ModuleAttempt C
  the_module_attempt = module_attempt w s

  -- The release after the attempt and its commit.
  abbrev pub final_module : ModuleRelease
  final_module = (module_attempt_and_commit w s).1.mr

  pub final_module-status :
      final_module.status
      ≡ module_commit_status w the_module_attempt.locals the_module_attempt.state.mr
  unfolding module_attempt_and_commit module_commit emit
  final_module-status = refl

  pub settled : IsSettled w s.mr the_module_attempt
  settled = IsSettled-module_attempt w s

  -- After an attempt at a ModuleRelease and its commit the conditions Ready, Stalled and Reconciling
  -- are those of the outcome, whatever they were before and wherever the attempt ended: Ready=True
  -- alone on success or no-op, Ready=False and Stalled=True after a stalled failure, and Ready=False
  -- and Reconciling=True after a transient one.
  pub module_attempt_and_commit_verdict :
      verdict w.conditions final_module.status.conditions
      ≡ expected_verdict the_module_attempt.locals.outcome
  unfolding module_attempt_and_commit module_commit emit
  module_attempt_and_commit_verdict =
      module_commit_status-verdict w the_module_attempt.locals the_module_attempt.state.mr
        settled.carried.statuses

  -- The inventory, the digests, the spec and the metadata, by the variables of the attempt.
  pub module_attempt_and_commit_keeps :
      (owned_objects final_module.status
        ≡ owned_objects_after w the_module_attempt.locals s.mr.status)
      × (final_module.spec ≡ s.mr.spec)
      × (final_module.metadata ≡ s.mr.metadata)
  unfolding module_attempt_and_commit module_commit emit
  module_attempt_and_commit_keeps =
      let a = the_module_attempt in
      (
        module_commit_status-owned_objects w a.locals a.state.mr settled.reconciled
            ∙ ap (owned_objects_after w a.locals) settled.carried.status,
        settled.carried.spec,
        settled.carried.metadata,
      )

  -- The result of an attempt at a ModuleRelease asks for the delay of the attempt, which is 0 unless it
  -- failed, and the status announces a retry after exactly that delay if the attempt failed and the
  -- delay is positive, and none otherwise.
  module_attempt_and_commit_retry :
      ((module_attempt_and_commit w s).0 ≡ ok (requeue_in the_module_attempt.requeue_after))
      × (is_failure the_module_attempt.locals.outcome ≡ false
          → the_module_attempt.requeue_after ≡ 0)
      × (final_module.status.next_retry_at
          ≡ next_retry w the_module_attempt.locals.outcome the_module_attempt.requeue_after)
  unfolding module_attempt_and_commit module_commit emit
  module_attempt_and_commit_retry =
      let a = the_module_attempt in
      (
        refl,
        settled.no_delay,
        module_commit_status-next_retry w a.locals a.state.mr
              (λ e. sym settled.delay ∙ settled.no_delay e)
            ∙ ap (next_retry w a.locals.outcome) (sym settled.delay),
      )
