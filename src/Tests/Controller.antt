-- ===== src/Tests/Controller.antt =====
-- The mapping from a source object to releases, at concrete inputs.
use mathlib.Core.List.{Memᴰ}
use poc_controller.Prelude.{String, ◌≡◌, ◌↔◌, refl, List, [], ◌∷◌, Result, ok}
use poc_controller.Api.{Release, is_true}
use poc_controller.Controller.{request_of, map_source_to_releases, update_passes}
use poc_controller.Controller.Laws.{
  resolve-update_passes, IsSourcedFrom, mem-map_source_to_releases,
}
use poc_controller.Status.Conditions.{condition, ready_condition}
use poc_controller.Status.Conditions.Memory.{memory}
use poc_controller.Source.{SourceObject, ArtifactRef, resolve}
use poc_controller.Tests.Sample.{release, source_object}

abbrev list_releases : String → Result (List Release)
list_releases ns = ok (release ∷ [])

mapping_example :
    Memᴰ (request_of release) (map_source_to_releases list_releases "OCIRepository" "team" "app")
    ↔ ((rel : Release) × Memᴰ rel (release ∷ [])
        × IsSourcedFrom "OCIRepository" "team" "app" rel
        × (request_of release ≡ request_of rel))
mapping_example =
    mem-map_source_to_releases "OCIRepository" "team" "app" list_releases (release ∷ []) refl
      (request_of release)

abbrev artifact : ArtifactRef
artifact = record {
  kind = "OCIRepository";
  url = "http://artifact";
  revision = "1";
  digest = "sha256:1";
}

-- The old and the new object differ in a condition only.
abbrev newer : SourceObject
newer = record (source_object) {
  conditions = condition ready_condition is_true "Ready" "still ready" ∷ [];
}

predicate_example : (artifact.revision ≡ artifact.revision) × (artifact.digest ≡ artifact.digest)
unfolding resolve update_passes poc_controller.Status.Conditions.Memory.find
predicate_example =
    resolve-update_passes memory (λ s. s) release.spec.source_ref "team"
      (λ kind ns name. ok source_object) (λ kind ns name. ok newer) source_object newer artifact
      artifact refl refl refl refl refl
