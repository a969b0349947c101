-- ===== src/Reconcile/Release/Loop/Recorded.antt =====
-- ReconcileRelease of internal/reconcile/release.go: what the status records of an apply.
use poc_controller.Prelude.{ℕ, ◌≡◌, none, some, length}
use poc_controller.Inventory.{compute_digest}
use poc_controller.Status.Digests.{config_digest}
use poc_controller.Reconcile.World.{World, St}
use poc_controller.Reconcile.Release.Loop.Status.{the_attempt}
use poc_controller.Reconcile.Release.Loop.Owned.{Owned, revision_after}
use poc_controller.Reconcile.Release.Loop.Made.{IsMade}

module _ {C : Type 0} (w : World C) (interval : ℕ) (s : St C) where
  -- The source, the package and the render from which an attempt was made, and what `now_owned` records
  -- of them over the release's status: the entries under the next revision, with their digest and number,
  -- and the digests of the artifact, of no values and of the rendered objects.
  pub record IsRecorded (now_owned : Owned) : Type 0 where
    pub origin : IsMade w s.rel (the_attempt w interval s).locals
    pub recorded : now_owned ≡ record {
      inventory = some (record {
        revision = revision_after s.rel.status.inventory;
        digest = compute_digest w.encoding origin.made.result.inventory_entries;
        count = length origin.made.result.inventory_entries;
        entries = origin.made.result.inventory_entries;
      });
      source = origin.ref.digest;
      config = config_digest w.encoding (λ raw. none) none;
      render = origin.made.digest;
    }
