-- ===== src/Reconcile/Module/Loop/Recorded.antt =====
-- ReconcileModuleRelease of internal/reconcile/modulerelease.go: what the status records of an apply.
use poc_controller.Prelude.{String, true, false, ◌≡◌, ◌∙◌, some, length, arith}
use poc_controller.Inventory.{compute_digest}
use poc_controller.Status.Digests.{module_source_digest, config_digest}
use poc_controller.Api.{ModuleRelease}
use poc_controller.Reconcile.World.{RenderResult}
use poc_controller.Reconcile.Release.Attempt.Coherence.{is_applied}
use poc_controller.Reconcile.Release.Loop.Owned.{Owned, revision_after}
use poc_controller.Reconcile.Module.World.{ModuleWorld, ModuleState}
use poc_controller.Reconcile.Module.Attempt.Plan.{IsRendered, IsEnded-module_attempt}
use poc_controller.Reconcile.Module.Loop.Status.{
  the_module_attempt, final_module, owned_objects, module_attempt_and_commit_keeps,
}
use poc_controller.Reconcile.Module.Loop.Idle.{ended_applied}

module _ {C : Type 0} (w : ModuleWorld C) where
  -- The module of a release renders, and `owned` records the result over the release's status: the
  -- entries under the next revision, with their digest and number, and the digests of the reference, of
  -- the values and of the rendered objects.
  pub record IsRecorded (mr : ModuleRelease) (owned : Owned) : Type 0 where
    pub result : RenderResult
    pub digest : String
    pub rendered : IsRendered w mr result digest
    pub recorded : owned ≡ record {
      inventory = some (record {
        revision = revision_after mr.status.inventory;
        digest = compute_digest w.encoding result.inventory_entries;
        count = length result.inventory_entries;
        entries = result.inventory_entries;
      });
      source = module_source_digest w.encoding mr.spec.module_ref.path mr.spec.module_ref.version;
      config = config_digest w.encoding w.canonical mr.spec.values;
      render = digest;
    }

  module _ (s : ModuleState C) where
    -- An attempt at a ModuleRelease changes the inventory and the last applied digests only if its
    -- outcome is an apply, with or without a prune. It then records the entries that the module
    -- renders to under the revision after the one before (1 if there was none), with their digest and
    -- their number, and the digests of the module's reference, of the values and of the rendered
    -- objects. In every other case the status keeps what it recorded. The spec and the metadata never
    -- change.
    pub module_attempt_and_commit-owned :
        (is_applied (the_module_attempt w s).locals.outcome ≡ false
          → owned_objects (final_module w s).status ≡ owned_objects s.mr.status)
        × (is_applied (the_module_attempt w s).locals.outcome ≡ true
            → IsRecorded s.mr (owned_objects (final_module w s).status))
        × ((final_module w s).spec ≡ s.mr.spec)
        × ((final_module w s).metadata ≡ s.mr.metadata)
    module_attempt_and_commit-owned =
        let (owned, spec, metadata) = module_attempt_and_commit_keeps w s in
        (
          λ h. owned ∙ ground (arith, h),
          λ h.
              let (result, digest, rendered, digests, entries) =
                ended_applied w (IsEnded-module_attempt w s) h in
              record {
                result = result;
                digest = digest;
                rendered = rendered;
                recorded = owned ∙ ground (arith, h, digests, entries);
              },
          spec,
          metadata,
        )
