-- ===== src/Reconcile/Release/Loop.antt =====
-- ReconcileRelease of internal/reconcile/release.go.
pub mod Status
pub mod Owned
pub mod Twin
pub mod Again
pub mod Idle
pub mod Made
pub mod Recorded
pub mod Gate
use poc_controller.Prelude.{
  ℕ, String, Bool, true, false, not, Option, none, some, List, [], ◌∷◌, ◌++◌, ◌==◌, ◌^^◌, eqb,
  is_empty, is_none, Error, Result, ok, err, wrap, if◌then◌else◌,
}
use poc_controller.Api.{Release}
use poc_controller.Status.Conditions.{ready_condition, mark_suspended, mark_not_ready}
use poc_controller.Apply.Impersonate.{is_not_found}
use poc_controller.Reconcile.World.{
  World, St, Call, normal, warning, event, patch_status, patch_metadata, call, mark, set_release,
  ReconcileResult,
}
use poc_controller.Reconcile.Release.Depends.{check_depends_on}
use poc_controller.Reconcile.Release.Commit.{commit}
use poc_controller.Reconcile.Release.Attempt.{Attempt, default_release_interval, attempt}
use poc_controller.Reconcile.Release.Deletion.{
  finalizer_name, contains_finalizer, set_finalizers, no_requeue, handle_release_deletion,
}

abbrev pub release_interval : Release → ℕ
release_interval rel =
    if eqb rel.spec.interval 0 then default_release_interval else rel.spec.interval

abbrev pub requeue_in : ℕ → ReconcileResult
requeue_in d = record { requeue = false; requeue_after = d }

-- whether checkDependsOn lets the reconcile go on
abbrev pub is_satisfied : Result String → Bool
is_satisfied (err e) = false
is_satisfied (ok blocker) = is_empty blocker

module _ {C : Type 0} (w : World C) where
  open w use {conditions}

  -- the finalizer's registration; controllerutil.AddFinalizer appends
  unfoldable pub register_finalizer : St C → Result ReconcileResult × St C
  register_finalizer s =
      let rel = set_finalizers (s.rel.metadata.finalizers ++ finalizer_name ∷ []) s.rel in
      let s' = call (patch_metadata rel) (set_release rel s) in
      elim (w.patch_metadata rel) [
        | some e ↦ (err (wrap "adding finalizer: " e), s')
        | none ↦ (ok (record { requeue = true; requeue_after = 0 }), s')
      ]

  -- `rel.Status.ObservedGeneration = rel.Generation`
  abbrev pub observe : St C → St C
  observe s = record s {
    rel = record (s.rel) {
      status = record (s.rel.status) { observed_generation = s.rel.metadata.generation };
    };
  }

  -- the branch on spec.suspend
  unfoldable pub suspend : St C → Result ReconcileResult × St C
  suspend s =
      let s1 =
        call (event normal "Suspended" "Suspend") (observe (mark (mark_suspended conditions) s)) in
      let s2 = call (patch_status s1.rel) s1 in
      elim (w.patch_status s1.rel) [ some e ↦ (err e, s2) | none ↦ (ok no_requeue, s2) ]

  -- the event of a resumed reconciliation
  unfoldable pub note_resume : St C → St C
  note_resume s = elim (conditions.find ready_condition s.rel.status.conditions) [
    | none ↦ s
    | some ready ↦
        if ready.reason == "Suspended" then call (event normal "Resumed" "Resume") s else s
  ]

  -- the two returns on dependsOn: an error is a warning, a blocker a normal event
  unfoldable pub wait_for_dependency : Result String → ℕ → St C → Result ReconcileResult × St C
  wait_for_dependency (err e) interval s =
      let s1 = observe (
        call (event warning "DependenciesNotReady" "DependsOn")
          (mark (mark_not_ready conditions "DependenciesNotReady" e.msg) s)) in
      (ok (requeue_in interval), call (patch_status s1.rel) s1)
  wait_for_dependency (ok blocker) interval s =
      let s1 = observe (
        call (event normal "DependenciesNotReady" "DependsOn") (
          mark
            (mark_not_ready conditions "DependenciesNotReady"
              ("waiting for dependency " ^^ blocker))
            s)) in
      (ok (requeue_in interval), call (patch_status s1.rel) s1)

  -- the attempt and its deferred commit
  unfoldable pub attempt_and_commit : ℕ → St C → Result ReconcileResult × St C
  attempt_and_commit interval s =
      let a = attempt w interval s in (ok (requeue_in a.requeue_after), commit w a.locals a.state)

  -- from the suspend check on
  unfoldable pub reconcile_live : ℕ → St C → Result ReconcileResult × St C
  unfolding suspend note_resume wait_for_dependency attempt_and_commit
  reconcile_live interval s =
      if s.rel.spec.suspend
      then suspend s
      else (let s1 = note_resume s in
          let answer =
            check_depends_on conditions w.get_release s.rel.metadata.namespace
              s.rel.spec.depends_on in
          if is_satisfied answer
          then attempt_and_commit interval s1
          else wait_for_dependency answer interval s1)

  -- the branches on the finalizer and the deletion
  unfoldable pub reconcile_loaded : St C → Result ReconcileResult × St C
  unfolding register_finalizer reconcile_live
  reconcile_loaded s =
      if not (contains_finalizer s.rel)
      then register_finalizer s
      else if is_none s.rel.metadata.deletion_timestamp
      then reconcile_live (release_interval s.rel) s
      else handle_release_deletion w s

  -- ReconcileRelease: the result, and the state after it unless there is no such release
  unfoldable pub reconcile_release : String → String → C → Result ReconcileResult × Option (St C)
  unfolding reconcile_loaded
  reconcile_release namespace name c = elim (w.get_release namespace name) [
    | err e ↦ if is_not_found e then (ok no_requeue, none) else (err e, none)
    | ok rel ↦
        let (r, s) = reconcile_loaded (record { rel = rel; cluster = c; log = [] }) in (r, some s)
  ]
