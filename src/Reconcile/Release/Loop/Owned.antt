-- ===== src/Reconcile/Release/Loop/Owned.antt =====
-- What an attempt of ReconcileRelease (internal/reconcile/release.go) makes of the inventory, the
-- digests and the retry time of the release's status.
use poc_controller.Prelude.{
  ℕ, ◌+◌, ◌%◌, ◌^◌, String, true, false, ◌≡◌, refl, ap, ◌∙◌, Option, none, some, ok, lt64, length,
  arith, if◌then◌else◌,
}
use poc_controller.Api.{Release, ReleaseStatus, Inventory}
use poc_controller.Inventory.{compute_digest}
use poc_controller.Reconcile.Outcome.{Outcome, is_failure}
use poc_controller.Reconcile.World.{World, St}
use poc_controller.Reconcile.Release.Commit.{Locals, next_revision, commit_status}
use poc_controller.Reconcile.Release.Attempt.Coherence.{is_applied}
use poc_controller.Reconcile.Release.Loop.{attempt_and_commit, requeue_in}
use poc_controller.Reconcile.Release.Loop.Status.{
  the_attempt, outcome, final, final-status, final-spec, final-metadata, coherent,
}

-- What a status records of the objects that the release owns.
pub record Owned : Type 0 where
  pub inventory : Option Inventory
  pub source : String
  pub config : String
  pub render : String

abbrev pub owned : ReleaseStatus → Owned
owned st = record {
  inventory = st.inventory;
  source = st.last_applied_source_digest;
  config = st.last_applied_config_digest;
  render = st.last_applied_render_digest;
}

-- The revision after that of an inventory: an int64 that wraps around, and 1 for the first one.
abbrev pub revision_after : Option Inventory → ℕ
revision_after none = 1
revision_after (some inv) = (inv.revision + 1) % 2 ^ 64

module _ {C : Type 0} (w : World C) where
  -- The inventory and the digests of an apply that succeeded.
  abbrev pub owned_after : Locals → ReleaseStatus → Owned
  owned_after l st =
      if is_applied l.outcome
      then record {
        inventory = some (record {
          revision = next_revision st.inventory;
          digest = compute_digest w.encoding l.new_entries;
          count = length l.new_entries;
          entries = l.new_entries;
        });
        source = l.digests.source;
        config = l.digests.config;
        render = l.digests.render;
      }
      else owned st

  commit_status-owned :
      (l : Locals) (rel : Release)
      → l.reconciled ≡ is_applied l.outcome
      → owned (commit_status w l rel) ≡ owned_after l rel.status
  unfolding commit_status
  commit_status-owned l rel h = ground arith

  commit_status-observed :
      (l : Locals) (rel : Release)
      → (commit_status w l rel).observed_generation ≡ rel.metadata.generation
  unfolding commit_status
  commit_status-observed l rel = ground arith

  -- The time of the next retry.
  abbrev pub retry_at : Outcome → ℕ → Option ℕ
  retry_at outcome delay =
      if is_failure outcome
      then (if lt64 0 delay then some ((w.retry_now + delay) % 2 ^ 64) else none)
      else none

  commit_status-next_retry_at :
      (l : Locals) (rel : Release) (delay : ℕ)
      → (is_failure l.outcome ≡ true → delay ≡ l.retry_after)
      → (is_failure l.outcome ≡ false → l.retry_after ≡ 0)
      → (commit_status w l rel).next_retry_at ≡ retry_at l.outcome delay
  unfolding commit_status
  commit_status-next_retry_at l rel delay h k = ground arith

module _ {C : Type 0} (w : World C) (interval : ℕ) (s : St C) where
  -- The inventory, the digests, the spec and the metadata, by the variables of the attempt.
  pub attempt_and_commit_keeps :
      (owned (final w interval s).status
        ≡ owned_after w (the_attempt w interval s).locals s.rel.status)
      × ((final w interval s).spec ≡ s.rel.spec)
      × ((final w interval s).metadata ≡ s.rel.metadata)
      × ((final w interval s).status.observed_generation ≡ s.rel.metadata.generation)
  attempt_and_commit_keeps =
      let a = the_attempt w interval s in
      let frame = (coherent w interval s).frame in
      (
        ap owned (final-status w interval s)
            ∙ commit_status-owned w a.locals a.state.rel (coherent w interval s).reconciled
            ∙ ap (owned_after w a.locals) frame.status,
        final-spec w interval s ∙ frame.spec,
        final-metadata w interval s ∙ frame.metadata,
        ap (λ (t : ReleaseStatus). t.observed_generation) (final-status w interval s)
            ∙ commit_status-observed w a.locals a.state.rel
            ∙ ap (λ m. m.generation) frame.metadata,
      )

  -- The result asks for the delay of the attempt, and the status announces a retry after exactly that
  -- delay if the attempt failed and the delay is positive, and none otherwise.
  pub attempt_and_commit_retry :
      ((attempt_and_commit w interval s).0
        ≡ ok (requeue_in (the_attempt w interval s).requeue_after))
      × ((final w interval s).status.next_retry_at
          ≡ retry_at w (outcome w interval s) (the_attempt w interval s).requeue_after)
  unfolding attempt_and_commit
  attempt_and_commit_retry =
      let a = the_attempt w interval s in
      (
        refl,
        ap (λ (t : ReleaseStatus). t.next_retry_at) (final-status w interval s)
            ∙ commit_status-next_retry_at w a.locals a.state.rel a.requeue_after
                (coherent w interval s).delay (coherent w interval s).no_delay,
      )
