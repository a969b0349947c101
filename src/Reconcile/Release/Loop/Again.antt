-- ===== src/Reconcile/Release/Loop/Again.antt =====
-- The stages of ReconcileRelease in internal/reconcile/release.go, run twice in the same world.
use poc_controller.Prelude.{
  ℕ, String, false, ◌≡◌, inl, inr, sym, ap, ◌∙◌, none, is_empty, Result-cases, arith,
}
use poc_controller.Inventory.{compute_digest}
use poc_controller.Status.Conditions.{mark_reconciling}
use poc_controller.Status.Digests.{DigestSet, render_digest, config_digest}
use poc_controller.Status.Digests.Laws.{compute_digest_set, config_digest_set, render_digest_set}
use poc_controller.Source.{ArtifactRef}
use poc_controller.Reconcile.World.{World, St, RenderResult, call, mark}
use poc_controller.Reconcile.Release.Phases.{
  done, resolve_release_source, fetch_release_artifact, navigate_release_path,
  render_release_package,
}
use poc_controller.Reconcile.Release.Attempt.{
  Attempt, set_source, digest_stage, render_stage, navigate_stage, clean_up, fetch_stage, attempt,
  compute_release_digests, no_digests,
}
use poc_controller.Reconcile.Release.Attempt.Marks.{
  resolve_release_source-Spec, fetch_release_artifact-Spec, navigate_release_path-Spec,
  render_release_package-Spec, compute_release_digests-Spec,
}
use poc_controller.Reconcile.Release.Loop.Twin.{IsTwin, IsAlike, no_op_stage-Twin, stage-Twin}

module _ {C : Type 0} (w : World C) (interval : ℕ) (last : DigestSet) (c : C) where
  resolve_same :
      (s t : St C)
      → IsAlike w interval last c s t
      → (resolve_release_source w interval s).0 ≡ (resolve_release_source w interval t).0
  unfolding resolve_release_source
  resolve_same s t h = ground (arith, h.source_ref, h.namespace)

  fetch_same :
      (ref : ArtifactRef) (s t : St C)
      → (fetch_release_artifact w ref interval s).0 ≡ (fetch_release_artifact w ref interval t).0
  unfolding fetch_release_artifact
  fetch_same ref s t = ground (arith)

  navigate_same :
      (dir : String) (s t : St C)
      → IsAlike w interval last c s t
      → (navigate_release_path w dir s).0 ≡ (navigate_release_path w dir t).0
  unfolding navigate_release_path
  navigate_same dir s t h = ground (arith, h.path)

  render_same :
      (dir : String) (s t : St C)
      → (render_release_package w dir s).0 ≡ (render_release_package w dir t).0
  unfolding render_release_package
  render_same dir s t = ground (arith)

  digests_same :
      (result : RenderResult) (d : DigestSet) (s t : St C)
      → (compute_release_digests w result d s).0 ≡ (compute_release_digests w result d t).0
  unfolding compute_release_digests
  digests_same result d s t = ground (arith)

  -- What a digest set that passes the digest phase holds.
  digests_set :
      (result : RenderResult) (d d' : DigestSet) (s : St C)
      → (compute_release_digests w result d s).0 ≡ done d'
      → (d'.inventory ≡ compute_digest w.encoding result.inventory_entries)
        × (is_empty d'.config ≡ false)
        × (is_empty d'.render ≡ false)
  unfolding compute_release_digests
  digests_set result d d' s h = elim (Result-cases (render_digest w.encoding result.resources)) [
    | inl (digest, e) ↦
        let d'_is : record d {
          render = digest;
          inventory = compute_digest w.encoding result.inventory_entries;
          config = config_digest w.encoding (λ raw. none) none;
        }
            ≡ d' =
          ground (arith, h, e) in
        (
          sym (ap (λ v. v.inventory) d'_is),
          sym (ap (λ v. is_empty v.config) d'_is) ∙ config_digest_set w.encoding (λ raw. none) none,
          sym (ap (λ v. is_empty v.render) d'_is)
              ∙ render_digest_set w.encoding result.resources digest e,
        )
    | inr (x, e) ↦ absurd (ground (arith, h, e))
  ]

  digest_stage-Twin :
      (d : DigestSet) (result : RenderResult) (s t : St C)
      → IsAlike w interval last c s t
      → IsTwin w interval last c
          (digest_stage w interval d result s)
          (digest_stage w interval d result t)
  unfolding digest_stage
  digest_stage-Twin d result s t h =
      stage-Twin w interval last c s t (compute_release_digests w result d s)
        (compute_release_digests w result d t) d _ h (compute_release_digests-Spec w result d s)
        (compute_release_digests-Spec w result d t) (digests_same result d s t)
        λ d' e s' t' h'.
          let (inv, config, render) = digests_set result d d' s e in
          no_op_stage-Twin w interval last c d' result s' t' h' inv config render
            (ap is_empty inv ∙ compute_digest_set w.encoding result.inventory_entries)

  render_stage-Twin :
      (d : DigestSet) (dir : String) (s t : St C)
      → IsAlike w interval last c s t
      → IsTwin w interval last c (render_stage w interval d dir s) (render_stage w interval d dir t)
  unfolding render_stage
  render_stage-Twin d dir s t h =
      stage-Twin w interval last c s t (render_release_package w dir s)
        (render_release_package w dir t) d _ h (render_release_package-Spec w dir s)
        (render_release_package-Spec w dir t) (render_same dir s t)
        λ result e s' t' h'. digest_stage-Twin d result s' t' h'

  navigate_stage-Twin :
      (d : DigestSet) (dir : String) (s t : St C)
      → IsAlike w interval last c s t
      → IsTwin w interval last c
          (navigate_stage w interval d dir s)
          (navigate_stage w interval d dir t)
  unfolding navigate_stage
  navigate_stage-Twin d dir s t h =
      stage-Twin w interval last c s t (navigate_release_path w dir s)
        (navigate_release_path w dir t) d _ h (navigate_release_path-Spec w dir s)
        (navigate_release_path-Spec w dir t) (navigate_same dir s t h)
        λ package_dir e s' t' h'. render_stage-Twin d package_dir s' t' h'

  clean_up-Twin :
      (dir : String) (a b : Attempt C)
      → IsTwin w interval last c a b
      → IsTwin w interval last c (clean_up w dir a) (clean_up w dir b)
  unfolding IsTwin call
  clean_up-Twin dir a b h = λ e.
      let (digested, idle) = h e in
      (
        record {
          inventory = digested.inventory;
          config_set = digested.config_set;
          render_set = digested.render_set;
          inventory_set = digested.inventory_set;
        },
        λ same.
            let i = idle same in
            record { outcome = i.outcome; cluster = i.cluster; delay = i.delay },
      )

  fetch_stage-Twin :
      (ref : ArtifactRef) (d : DigestSet) (s t : St C)
      → IsAlike w interval last c s t
      → IsTwin w interval last c (fetch_stage w interval ref d s) (fetch_stage w interval ref d t)
  unfolding fetch_stage
  fetch_stage-Twin ref d s t h =
      stage-Twin w interval last c s t (fetch_release_artifact w ref interval s)
        (fetch_release_artifact w ref interval t) d _ h
        (fetch_release_artifact-Spec w ref interval s)
        (fetch_release_artifact-Spec w ref interval t) (fetch_same ref s t)
        λ dir e s' t' h'.
          clean_up-Twin dir (navigate_stage w interval d dir s')
            (navigate_stage w interval d dir t') (navigate_stage-Twin d dir s' t' h')

  pub attempt-Twin :
      (s t : St C)
      → IsAlike w interval last c s t
      → IsTwin w interval last c (attempt w interval s) (attempt w interval t)
  unfolding attempt mark
  attempt-Twin s t h =
      let start : St C → St C =
        λ s. mark (mark_reconciling w.conditions "Progressing" "Reconciliation in progress") s in
      stage-Twin w interval last c (start s) (start t) (resolve_release_source w interval (start s))
        (resolve_release_source w interval (start t)) no_digests _ (started h)
        (resolve_release_source-Spec w interval (start s))
        (resolve_release_source-Spec w interval (start t))
        (resolve_same (start s) (start t) (started h))
        λ ref e s' t' h'.
          fetch_stage-Twin ref (record (no_digests) { source = ref.digest }) (set_source w ref s')
            (set_source w ref t')
            (record {
              source_ref = h'.source_ref;
              path = h'.path;
              namespace = h'.namespace;
              last_same = h'.last_same;
              cluster = h'.cluster;
            })
    where
      started :
          IsAlike w interval last c s t
          → IsAlike w interval last c
              (mark (mark_reconciling w.conditions "Progressing" "Reconciliation in progress") s)
              (mark (mark_reconciling w.conditions "Progressing" "Reconciliation in progress") t)
      started h = record {
        source_ref = h.source_ref;
        path = h.path;
        namespace = h.namespace;
        last_same = h.last_same;
        cluster = h.cluster;
      }
