-- ===== src/Tests/Objects.antt =====
-- Prune, the inventory, the source and the package directory at concrete inputs.
use mathlib.Core.List.{Memᴰ}
use poc_controller.Prelude.{
  ◌⊎◌, String, true, false, any_of, ◌≡◌, ◌≢◌, ◌↔◌, refl, inr, none, some, List, [], ◌∷◌, All, ok,
}
use poc_controller.Api.{InventoryEntry}
use poc_controller.Inventory.{compute_stale_set}
use poc_controller.Inventory.Laws.{SameObject, mem-compute_stale_set}
use poc_controller.Apply.Drift.{detect_drift, DriftResult}
use poc_controller.Apply.Drift.Laws.{all_answered, drifts, is_drifted, detect_drift_iff}
use poc_controller.Apply.Prune.{prune}
use poc_controller.Apply.Prune.Safety.{Deletions, prune-Deletions}
use poc_controller.Apply.Prune.Settled.{IsImmediate, IsSettled, prune_settles}
use poc_controller.Status.Conditions.{ready_condition}
use poc_controller.Status.Conditions.Memory.{memory}
use poc_controller.Source.{resolve, is_ready, SourceObject, ArtifactRef}
use poc_controller.Source.Laws.{IsSupported, found, resolve_iff}
use poc_controller.Reconcile.World.{regular_file, directory}
use poc_controller.Prelude.Paths.{join_slash}
use poc_controller.Reconcile.Release.Path.{resolve_package_path, join_path}
use poc_controller.Prelude.Paths.Laws.{IsPlain}
use poc_controller.Reconcile.Release.Path.Laws.{resolve_package_path_lem}
use poc_controller.Tests.Sample
use poc_controller.Tests.Sample.{client, entry, old_entry, live, world, release}

deletions_example : Deletions client "" (entry ∷ []) true (prune client "" (entry ∷ []) true).2
deletions_example = prune-Deletions client "" (entry ∷ []) true

client-Immediate : IsImmediate client
client-Immediate = record {
  others = λ o c e. inr (Sample.missing, refl, refl);
  deleted = λ o c e f h. (Sample.missing, refl, refl);
  not_there = λ o c e x f h g. (Sample.missing, refl, refl);
}

settles_example : IsSettled client "" entry (prune client "" (entry ∷ []) true).2
unfolding prune poc_controller.Apply.Prune.prune_entry poc_controller.Apply.Prune.is_safe_to_delete
    poc_controller.Apply.Prune.is_owned poc_controller.Core.is_opm_managed_by
    poc_controller.Core.read_label
settles_example =
    prune_settles client "" client-Immediate (entry ∷ []) true pruned entry (Memᴰ.head refl)
  where
    pruned : (prune client "" (entry ∷ []) true).1 ≡ none
    pruned = refl

stale_example : Memᴰ old_entry (compute_stale_set (entry ∷ old_entry ∷ []) (entry ∷ [])) ↔ (
    Memᴰ old_entry (entry ∷ old_entry ∷ [])
    × ((c : InventoryEntry) → Memᴰ c (entry ∷ []) → ¬ SameObject old_entry c))
stale_example = mem-compute_stale_set (entry ∷ old_entry ∷ []) (entry ∷ []) old_entry

abbrev artifact : ArtifactRef
artifact = record {
  kind = "OCIRepository";
  url = "http://artifact";
  revision = "1";
  digest = "sha256:1";
}

resolve_example :
    (resolve memory world.quote world.get_source release.spec.source_ref "team" ≡ ok artifact) ↔ (
      IsSupported "OCIRepository"
      × ((obj : SourceObject) × (found memory world.quote world.get_source release.spec.source_ref
              "team"
            ≡ ok obj)
          × (is_ready (memory.find ready_condition obj.conditions) ≡ true)
          × (obj.artifact
              ≡ some (record { url = "http://artifact"; revision = "1"; digest = "sha256:1" }))
          × (artifact.kind ≡ release.spec.source_ref.kind)))
resolve_example =
    resolve_iff memory world.quote world.get_source release.spec.source_ref "team" artifact

path_example :
    (names : List String) × All IsPlain names
    × ("/tmp/app/web" ≡ join_path "/tmp/app" (join_slash names))
    × (world.stat "/tmp/app/web" ≡ directory)
    × ((world.stat "/tmp/app/web/release.cue" ≡ directory)
        ⊎ (world.stat "/tmp/app/web/release.cue" ≡ regular_file))
unfolding resolve_package_path join_slash poc_controller.Prelude.Paths.clean_components
path_example =
    resolve_package_path_lem world.quote world.stat "/tmp/app" "./base/../web" "/tmp/app/web" refl

abbrev undrifted : DriftResult
undrifted = record { drifted = false; resources = [] }

drift_example : (detect_drift world.resource_manager (live ∷ []) true ≡ ok undrifted) ↔ (
    (all_answered world.resource_manager true (live ∷ []) ≡ true)
    × (undrifted.resources ≡ drifts world.resource_manager true (live ∷ []))
    × (undrifted.drifted ≡ any_of (is_drifted world.resource_manager true) (live ∷ [])))
drift_example = detect_drift_iff world.resource_manager true (live ∷ []) undrifted
