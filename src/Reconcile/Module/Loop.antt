-- ===== src/Reconcile/Module/Loop.antt =====
-- ReconcileModuleRelease of internal/reconcile/modulerelease.go.
pub mod Status
pub mod Idle
pub mod Recorded
use poc_controller.Prelude.{
  String, true, not, Option, none, some, [], ◌∷◌, ◌++◌, ◌==◌, any_of, is_none, Bool, Result, ok,
  err, wrap, if◌then◌else◌,
}
use poc_controller.Api.{ModuleRelease}
use poc_controller.Status.Conditions.{ready_condition, mark_suspended}
use poc_controller.Apply.Impersonate.{is_not_found}
use poc_controller.Reconcile.World.{normal, ReconcileResult}
use poc_controller.Reconcile.Release.Deletion.{finalizer_name, no_requeue}
use poc_controller.Reconcile.Release.Loop.{requeue_in}
use poc_controller.Reconcile.Module.World.{
  ModuleWorld, ModuleState, event, patch_metadata, patch_status, emit, annotate,
}
use poc_controller.Reconcile.Module.Attempt.{module_attempt}
use poc_controller.Reconcile.Module.Commit.{module_commit}
use poc_controller.Reconcile.Module.Deletion.{with_finalizers, handle_deletion}

abbrev pub has_finalizer : ModuleRelease → Bool
has_finalizer mr = any_of (λ f. f == finalizer_name) mr.metadata.finalizers

module _ {C : Type 0} (w : ModuleWorld C) where
  open w use {conditions}

  -- addFinalizer, and the returns that follow it
  unfoldable pub add_finalizer : ModuleState C → Result ReconcileResult × ModuleState C
  add_finalizer s =
      let mr = with_finalizers (s.mr.metadata.finalizers ++ finalizer_name ∷ []) s.mr in
      let s' = emit (patch_metadata mr) (record s { mr = mr }) in
      elim (w.patch_metadata mr) [
        | some e ↦ (err (wrap "adding finalizer: " e), s')
        | none ↦ (ok (record { requeue = true; requeue_after = 0 }), s')
      ]

  -- `mr.Status.ObservedGeneration = mr.Generation`
  abbrev observe_module : ModuleState C → ModuleState C
  observe_module s = record s {
    mr = record (s.mr) {
      status = record (s.mr.status) { observed_generation = s.mr.metadata.generation };
    };
  }

  -- the branch on spec.suspend
  unfoldable pub suspend_module : ModuleState C → Result ReconcileResult × ModuleState C
  suspend_module s =
      let s1 =
        emit (event normal "Suspended" "Suspend")
          (observe_module (annotate (mark_suspended conditions) s)) in
      let s2 = emit (patch_status s1.mr) s1 in
      elim (w.patch_status s1.mr) [ some e ↦ (err e, s2) | none ↦ (ok no_requeue, s2) ]

  -- the event of a resumed reconciliation
  unfoldable pub note_module_resume : ModuleState C → ModuleState C
  note_module_resume s = elim (conditions.find ready_condition s.mr.status.conditions) [
    | none ↦ s
    | some ready ↦
        if ready.reason == "Suspended" then emit (event normal "Resumed" "Resume") s else s
  ]

  -- the body and the deferred commit
  unfoldable pub module_attempt_and_commit : ModuleState C → Result ReconcileResult × ModuleState C
  module_attempt_and_commit s =
      let a = module_attempt w s in
      (ok (requeue_in a.requeue_after), module_commit w a.locals a.state)

  -- from the finalizer on
  unfoldable pub reconcile_module : ModuleState C → Result ReconcileResult × ModuleState C
  unfolding add_finalizer suspend_module note_module_resume module_attempt_and_commit
  reconcile_module s =
      if not (has_finalizer s.mr)
      then add_finalizer s
      else if not (is_none s.mr.metadata.deletion_timestamp)
      then handle_deletion w s
      else if s.mr.spec.suspend
      then suspend_module s
      else module_attempt_and_commit (note_module_resume s)

  -- ReconcileModuleRelease: the result, and the state after it unless there is no such release
  unfoldable pub reconcile_module_release :
      String → String → C → Result ReconcileResult × Option (ModuleState C)
  unfolding reconcile_module
  reconcile_module_release namespace name c = elim (w.get_module_release namespace name) [
    | err e ↦ if is_not_found e then (ok no_requeue, none) else (err e, none)
    | ok mr ↦
        let (r, s) = reconcile_module (record { mr = mr; cluster = c; log = [] }) in (r, some s)
  ]
