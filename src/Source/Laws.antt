-- ===== src/Source/Laws.antt =====
-- Resolve of internal/source/resolve.go: when it succeeds, and how its errors are classed.
use poc_controller.Prelude.{String, true, ◌≡◌, ◌↔◌, ◌⊎◌, some, arith, eq_iff, Result, ok}
use poc_controller.Api.{SourceReference}
use poc_controller.Status.Conditions.{ConditionApi, ready_condition}
use poc_controller.Source.{SourceObject, ArtifactRef, resolve, source_namespace, is_ready}

abbrev pub IsSupported : String → Type 0
IsSupported kind = (kind ≡ "OCIRepository") ⊎ ((kind ≡ "GitRepository") ⊎ (kind ≡ "Bucket"))

module _ (api : ConditionApi) (quote : String → String)
    (get : String → String → String → Result SourceObject) (ref : SourceReference)
    (ns : String) where
  -- The look-up that Resolve makes.
  abbrev pub found : Result SourceObject
  found = get ref.kind (source_namespace ref ns) ref.name

  -- Resolve returns an artifact exactly when the kind is supported and the source object exists, is
  -- Ready=True and has that artifact.
  pub resolve_iff :
      (a : ArtifactRef)
      → (resolve api quote get ref ns ≡ ok a) ↔ (
          IsSupported ref.kind
          × ((obj : SourceObject) × (found ≡ ok obj)
              × (is_ready (api.find ready_condition obj.conditions) ≡ true)
              × (obj.artifact
                  ≡ some (record { url = a.url; revision = a.revision; digest = a.digest }))
              × (a.kind ≡ ref.kind)))
  unfolding resolve
  resolve_iff a = ground (
    arith,
    eq_iff ref.kind "OCIRepository",
    eq_iff ref.kind "GitRepository",
    eq_iff ref.kind "Bucket",
  )
