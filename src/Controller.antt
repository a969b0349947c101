-- ===== src/Controller.antt =====
-- internal/controller/release_controller.go: the releases that a source object wakes, and when.
pub mod Laws
use poc_controller.Prelude.{
  Option, none, some, true, false, ◌||◌, String, Bool, not, List, [], ◌∷◌, ◌==◌, Result, ok, err,
  if◌then◌else◌,
}
use poc_controller.Api.{Release}
use poc_controller.Source.{SourceObject, source_namespace}

-- ctrl.Request: the namespace and the name of a release.
pub record Request : Type 0 where
  pub namespace : String
  pub name : String

abbrev pub request_of : Release → Request
request_of rel = record { namespace = rel.metadata.namespace; name = rel.metadata.name }

-- the loop over list.Items; `srcNs` is found as in Resolve
unfoldable pub collect_requests : String → String → String → List Release → List Request
collect_requests kind ns name [] = []
collect_requests kind ns name (rel ∷ items) =
    let rest = collect_requests kind ns name items in
    if not (rel.spec.source_ref.kind == kind)
    then rest
    else if not (rel.spec.source_ref.name == name)
    then rest
    else if not (source_namespace rel.spec.source_ref rel.metadata.namespace == ns)
    then rest
    else request_of rel ∷ rest

-- mapSourceToReleases, for an object of a namespace and a name; `list` is Client.List in a namespace
unfoldable pub map_source_to_releases :
    (String → Result (List Release)) → String → String → String → List Request
unfolding collect_requests
map_source_to_releases list kind ns name = elim (list ns) [
  | err e ↦ []
  | ok items ↦ collect_requests kind ns name items
]

-- artifactRef: the fields that the predicate compares.
pub record Snapshot : Type 0 where
  pub revision : String
  pub digest : String

-- artifactOf, for an object of the kinds that the controller watches
abbrev pub artifact_of : SourceObject → Option Snapshot
artifact_of obj = elim obj.artifact [
  | none ↦ none
  | some a ↦ some (record { revision = a.revision; digest = a.digest })
]

-- the comparison in sourceArtifactChanged.Update
artifact_changed : Option Snapshot → Option Snapshot → Bool
artifact_changed none none = false
artifact_changed none (some _) = true
artifact_changed (some _) none = true
artifact_changed (some a) (some b) = not (a.revision == b.revision) || not (a.digest == b.digest)

-- sourceArtifactChanged.Update
unfoldable pub update_passes : SourceObject → SourceObject → Bool
unfolding artifact_changed
update_passes old new = artifact_changed (artifact_of old) (artifact_of new)
