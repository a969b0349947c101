-- ===== src/Controller/Laws.antt =====
-- mapSourceToReleases of internal/controller/release_controller.go against what Resolve looks up.
use mathlib.Core.List.{Memᴰ}
use mathlib.Core.List.Memᴰ
use poc_controller.Prelude.{
  false, some, String, Bool, true, ◌&&◌, ◌≡◌, ◌↔◌, ◌==◌, inl, inr, refl, sym, ◌∙◌, ap, List, [],
  ◌∷◌, Result, ok, eq_iff, arith, Bool-cases, if◌then◌else◌,
}
use poc_controller.Api.{Release}
use poc_controller.Source.{source_namespace}
use poc_controller.Api.{SourceReference}
use poc_controller.Status.Conditions.{ConditionApi}
use poc_controller.Source.{SourceObject, ArtifactRef, resolve}
use poc_controller.Source.Laws.{resolve_iff}
use poc_controller.Controller.{
  artifact_changed, update_passes, Request, request_of, collect_requests, map_source_to_releases,
}

-- The release's source reference, read as Resolve reads it, names the object.
pub record IsSourcedFrom (kind ns name : String) (rel : Release) : Type 0 where
  pub kind_same : rel.spec.source_ref.kind ≡ kind
  pub name_same : rel.spec.source_ref.name ≡ name
  pub namespace_same : source_namespace rel.spec.source_ref rel.metadata.namespace ≡ ns

module _ (kind ns name : String) where
  abbrev matches : Release → Bool
  matches rel =
      rel.spec.source_ref.kind == kind
      && rel.spec.source_ref.name == name
      && source_namespace rel.spec.source_ref rel.metadata.namespace == ns

  matches_iff : (rel : Release) → (matches rel ≡ true) ↔ IsSourcedFrom kind ns name rel
  matches_iff rel = ground (
    arith,
    eq_iff rel.spec.source_ref.kind kind,
    eq_iff rel.spec.source_ref.name name,
    eq_iff (source_namespace rel.spec.source_ref rel.metadata.namespace) ns,
  )

  collect_requests-cons :
      (rel : Release) (items : List Release)
      → collect_requests kind ns name (rel ∷ items) ≡ (
          if matches rel
          then request_of rel ∷ collect_requests kind ns name items
          else collect_requests kind ns name items)
  unfolding collect_requests
  collect_requests-cons rel items = ground arith

  no_request : (r : Request) → ¬ Memᴰ r (collect_requests kind ns name [])
  unfolding collect_requests
  no_request r m = elim m [ ]

  mem_sound :
      (items : List Release) (r : Request)
      → Memᴰ r (collect_requests kind ns name items)
      → (rel : Release) × Memᴰ rel items × IsSourcedFrom kind ns name rel × (r ≡ request_of rel)
  mem_sound [] r m = absurd (no_request r m)
  mem_sound (rel ∷ items) r m = elim (Bool-cases (matches rel)) [
    | inl t ↦ elim (Memᴰ.cases_cons (rw (collect_requests-cons rel items, t) at m)) [
      | inl here ↦ (rel, Memᴰ.head refl, (matches_iff rel).0 t, here)
      | inr there ↦ later (mem_sound items r there)
    ]
    | inr f ↦ later (mem_sound items r (rw (collect_requests-cons rel items, f) at m))
  ]
    where
      later :
          (rel' : Release) × Memᴰ rel' items
            × IsSourcedFrom kind ns name rel'
            × (r ≡ request_of rel')
          → (rel' : Release) × Memᴰ rel' (rel ∷ items)
            × IsSourcedFrom kind ns name rel'
            × (r ≡ request_of rel')
      later (rel', m', s, e) = (rel', Memᴰ.tail m', s, e)

  mem_complete :
      (items : List Release) (rel : Release)
      → Memᴰ rel items
      → IsSourcedFrom kind ns name rel
      → Memᴰ (request_of rel) (collect_requests kind ns name items)
  mem_complete [] rel m s = elim m [ ]
  mem_complete (x ∷ items) rel (Memᴰ.head e) s =
      rw (collect_requests-cons x items, (matches_iff x).1 (rw e at s))
        (Memᴰ.head (ap request_of e))
  mem_complete (x ∷ items) rel (Memᴰ.tail m) s = elim (Bool-cases (matches x)) [
    | inl t ↦ rw (collect_requests-cons x items, t) (Memᴰ.tail (mem_complete items rel m s))
    | inr f ↦ rw (collect_requests-cons x items, f) (mem_complete items rel m s)
  ]

  map_source_to_releases_ok :
      (list : String → Result (List Release)) (items : List Release)
      → list ns ≡ ok items
      → map_source_to_releases list kind ns name ≡ collect_requests kind ns name items
  unfolding map_source_to_releases
  map_source_to_releases_ok list items h = rw (h, map_source_to_releases) refl

  -- Where the releases of the object's namespace can be listed, a change of the object wakes exactly
  -- those of them whose source reference has its kind and name and, read as Resolve reads it, its
  -- namespace.
  pub mem-map_source_to_releases :
      (list : String → Result (List Release)) (items : List Release)
      → list ns ≡ ok items
      → (r : Request)
      → Memᴰ r (map_source_to_releases list kind ns name)
        ↔ ((rel : Release) × Memᴰ rel items × IsSourcedFrom kind ns name rel × (r ≡ request_of rel))
  mem-map_source_to_releases list items h r =
      rw (map_source_to_releases_ok list items h)
        (mem_sound items r, λ (rel, m, s, e). rw e (mem_complete items rel m s))

module _ (api : ConditionApi) (quote : String → String) (ref : SourceReference) (ns : String) where
  -- If the update of a source object is dropped and Resolve succeeds both on the old and on the new
  -- object, then it gives the same revision and the same digest.
  pub resolve-update_passes :
      (get get' : String → String → String → Result SourceObject) (old new : SourceObject)
      (a b : ArtifactRef)
      → get ref.kind (source_namespace ref ns) ref.name ≡ ok old
      → get' ref.kind (source_namespace ref ns) ref.name ≡ ok new
      → resolve api quote get ref ns ≡ ok a
      → resolve api quote get' ref ns ≡ ok b
      → update_passes old new ≡ false
      → (b.revision ≡ a.revision) × (b.digest ≡ a.digest)
  unfolding update_passes artifact_changed
  resolve-update_passes get get' old new a b e e' h h' dropped =
      let (_, (obj, found_a, _, art_a, _)) = (resolve_iff api quote get ref ns a).0 h in
      let (_, (obj', found_b, _, art_b, _)) = (resolve_iff api quote get' ref ns b).0 h' in
      same obj obj' (sym e ∙ found_a) (sym e' ∙ found_b) art_a art_b
    where
      same :
          (obj obj' : SourceObject)
          → ok old ≡ ok obj
          → ok new ≡ ok obj'
          → obj.artifact ≡ some (record { url = a.url; revision = a.revision; digest = a.digest })
          → obj'.artifact ≡ some (record { url = b.url; revision = b.revision; digest = b.digest })
          → (b.revision ≡ a.revision) × (b.digest ≡ a.digest)
      same obj obj' p q u v =
          ground
            (arith, p, q, u, v, dropped, eq_iff a.revision b.revision, eq_iff a.digest b.digest)
