-- ===== src/Reconcile/Release/Loop/Gate.antt =====
-- ReconcileRelease of internal/reconcile/release.go: the branches before the attempt.
use poc_controller.Prelude.{String, Bool, false, not, ◌&&◌, ◌||◌, ◌≡◌, is_none, Result, arith}
use poc_controller.Reconcile.World.{World, St, call, mark, set_release, ReconcileResult}
use poc_controller.Reconcile.Release.Depends.{check_depends_on}
use poc_controller.Reconcile.Release.Deletion.{contains_finalizer}
use poc_controller.Reconcile.Release.Loop.{
  release_interval, register_finalizer, suspend, note_resume, wait_for_dependency, is_satisfied,
  reconcile_live, reconcile_loaded,
}
use poc_controller.Reconcile.Release.Loop.Owned.{owned}

module _ {C : Type 0} (w : World C) where
  -- Whether the reconcile may go on to the attempt or to the deletion.
  abbrev pub is_open : St C → Bool
  is_open s =
      contains_finalizer s.rel
      && (not (is_none s.rel.metadata.deletion_timestamp)
          || (not s.rel.spec.suspend
              && is_satisfied (
                  check_depends_on w.conditions w.get_release s.rel.metadata.namespace
                    s.rel.spec.depends_on)))

  -- What a branch that waits leaves as it was.
  abbrev IsUntouched : St C → Result ReconcileResult × St C → Type 0
  IsUntouched s r = (r.1.cluster ≡ s.cluster) × (owned r.1.rel.status ≡ owned s.rel.status)

  register_finalizer-Untouched : (s : St C) → IsUntouched s (register_finalizer w s)
  unfolding register_finalizer call set_release
  register_finalizer-Untouched s = ground arith

  suspend-Untouched : (s : St C) → IsUntouched s (suspend w s)
  unfolding suspend call mark
  suspend-Untouched s = ground arith

  wait_for_dependency-Untouched :
      (answer : Result String) (interval : _) (s : St C)
      → IsUntouched s (wait_for_dependency w answer interval (note_resume w s))
  unfolding wait_for_dependency note_resume call mark
  wait_for_dependency-Untouched answer interval s = ground arith

  -- A release without the finalizer, and one that is not being deleted and is suspended or waits for a
  -- dependency, leaves the cluster, the inventory and the last applied digests as they were.
  pub reconcile_loaded-Untouched :
      (s : St C)
      → is_open s ≡ false
      → ((reconcile_loaded w s).1.cluster ≡ s.cluster)
        × (owned (reconcile_loaded w s).1.rel.status ≡ owned s.rel.status)
  unfolding reconcile_loaded reconcile_live
  reconcile_loaded-Untouched s h = ground (
    arith,
    register_finalizer-Untouched s,
    suspend-Untouched s,
    wait_for_dependency-Untouched
        (check_depends_on w.conditions w.get_release s.rel.metadata.namespace s.rel.spec.depends_on)
        (release_interval s.rel) s,
  )
