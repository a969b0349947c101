-- ===== src/Reconcile/Release/Loop/Idle.antt =====
-- ReconcileRelease of internal/reconcile/release.go, run again after an apply.
use poc_controller.Prelude.{
  ℕ, String, true, false, ◌≡◌, ◌≢◌, refl, sym, ap, ◌∙◌, is_empty, eq_iff, ok, arith,
}
use poc_controller.Inventory.{compute_digest}
use poc_controller.Status.Digests.{is_no_op}
use poc_controller.Status.Digests.Laws.{is_no_op_self}
use poc_controller.Reconcile.Outcome.{no_op}
use poc_controller.Reconcile.World.{World, St, call, set_release}
use poc_controller.Reconcile.Release.Commit.{Locals, commit}
use poc_controller.Reconcile.Release.Attempt.{last_applied}
use poc_controller.Reconcile.Release.Attempt.Coherence.{is_applied}
use poc_controller.Reconcile.Release.Loop.{attempt_and_commit, requeue_in}
use poc_controller.Reconcile.Release.Loop.Status.{the_attempt, outcome}
use poc_controller.Reconcile.Release.Loop.Owned.{attempt_and_commit_keeps}
use poc_controller.Reconcile.Release.Loop.Twin.{IsTwin, IsAlike}
use poc_controller.Reconcile.Release.Loop.Again.{attempt-Twin}

commit-cluster :
    {C : Type 0} (w : World C) (l : Locals) (s : St C) → (commit w l s).cluster ≡ s.cluster
unfolding commit call set_release
commit-cluster w l s = refl

not_empty : (t : String) → t ≢ "" → is_empty t ≡ false
not_empty t set = ground (arith, eq_iff t "", set)

module _ {C : Type 0} (w : World C) (interval : ℕ) (s : St C) where
  abbrev pub next : St C
  next = (attempt_and_commit w interval s).1

  next-Alike : IsAlike w interval (last_applied w next.rel) next.cluster s next
  next-Alike = record {
    source_ref = ap (λ sp. sp.source_ref) (attempt_and_commit_keeps w interval s).1;
    path = ap (λ sp. sp.path) (attempt_and_commit_keeps w interval s).1;
    namespace = ap (λ m. m.namespace) (attempt_and_commit_keeps w interval s).2;
    last_same = refl;
    cluster = refl;
  }

  last_digests :
      is_applied (outcome w interval s) ≡ true
      → (the_attempt w interval s).locals.digests.inventory
        ≡ compute_digest w.encoding (the_attempt w interval s).locals.new_entries
      → (the_attempt w interval s).locals.digests ≡ last_applied w next.rel
  last_digests applied inventory =
      ground (arith, (attempt_and_commit_keeps w interval s).0, applied, inventory)

  -- Where an attempt applies and its source's digest is not empty, a second attempt on the state that it
  -- commits, in a world that answers the same, is a no-op: it leaves the cluster alone and comes back
  -- after the interval.
  pub attempt_and_commit_idle :
      is_applied (outcome w interval s) ≡ true
      → (the_attempt w interval s).locals.digests.source ≢ ""
      → (outcome w interval next ≡ no_op)
        × ((attempt_and_commit w interval next).1.cluster ≡ next.cluster)
        × ((attempt_and_commit w interval next).0 ≡ ok (requeue_in interval))
  unfolding attempt_and_commit IsTwin
  attempt_and_commit_idle applied set =
      let (digested, idle) =
        attempt-Twin w interval (last_applied w next.rel) next.cluster s next next-Alike applied in
      let i = idle (
        ap (is_no_op (the_attempt w interval s).locals.digests)
          (sym (last_digests applied digested.inventory))
        ∙ is_no_op_self _ (not_empty _ set) digested.config_set digested.render_set
            digested.inventory_set) in
      (i.outcome, commit-cluster w _ _ ∙ i.cluster, ap (λ d. ok (requeue_in d)) i.delay)
