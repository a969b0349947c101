-- ===== src/Reconcile/Release/Loop/Made.antt =====
-- ReconcileRelease of internal/reconcile/release.go: what an attempt that applies was made from.
use poc_controller.Prelude.{
  ℕ, String, true, ◌≡◌, refl, ap, ◌∙◌, inl, inr, sym, subst, none, eq_iff, Bool-cases, Result-cases,
  ok, arith,
}
use poc_controller.Api.{Release}
use poc_controller.Inventory.{compute_digest}
use poc_controller.Status.Conditions.{mark_reconciling}
use poc_controller.Status.Digests.{DigestSet, render_digest, config_digest, is_no_op}
use poc_controller.Source.{ArtifactRef, resolve}
use poc_controller.Reconcile.World.{World, St, RenderResult, mark}
use poc_controller.Reconcile.Release.Path.{resolve_package_path}
use poc_controller.Reconcile.Release.Phases.{
  Phase, done, failed, resolve_release_source, fetch_release_artifact, navigate_release_path,
  render_release_package,
}
use poc_controller.Reconcile.Release.Commit.{Locals}
use poc_controller.Reconcile.Release.Attempt.{
  Attempt, last_applied, and_then, give_up, set_source, no_op_stage, digest_stage, render_stage,
  navigate_stage, clean_up, fetch_stage, attempt, compute_release_digests, no_digests,
}
use poc_controller.Reconcile.Release.Attempt.Marks.{
  Spec, resolve_release_source-Spec, fetch_release_artifact-Spec, navigate_release_path-Spec,
  render_release_package-Spec, compute_release_digests-Spec,
}
use poc_controller.Reconcile.Release.Attempt.Coherence.{is_applied}
use poc_controller.Reconcile.Release.Loop.Twin.{
  Spec-fails, Spec-keeps, failure_applies_not, apply_stage-Digested,
}

module _ {C : Type 0} (w : World C) where
  -- The render of a package_dir, its digest, and that of its entries.
  pub record IsMadeOf (source package_dir : String) (l : Locals) : Type 0 where
    pub result : RenderResult
    pub rendered : w.render package_dir ≡ ok ("ModuleRelease", result)
    pub digest : String
    pub digested : render_digest w.encoding result.resources ≡ ok digest
    pub digests_are : l.digests ≡ record {
      source = source;
      config = config_digest w.encoding (λ raw. none) none;
      render = digest;
      inventory = compute_digest w.encoding result.inventory_entries;
    }
    pub entries_are : l.new_entries ≡ result.inventory_entries

  -- The artifact that the release's source resolves to, and the package in it at the release's path.
  pub record IsMade (rel : Release) (l : Locals) : Type 0 where
    pub ref : ArtifactRef
    pub resolved :
        resolve w.conditions w.quote w.get_source rel.spec.source_ref rel.metadata.namespace
        ≡ ok ref
    pub dir : String
    pub extracted : w.mkdir_temp ≡ ok dir
    pub package_dir : String
    pub navigated : resolve_package_path w.quote w.stat dir rel.spec.path ≡ ok package_dir
    pub made : IsMadeOf ref.digest package_dir l

  module _ (interval : ℕ) where
    abbrev IsApply : Attempt C → Type 0
    IsApply a = is_applied a.locals.outcome ≡ true

    -- An attempt that applies passes each phase.
    through :
        {A : Type 0} (P : Attempt C → Type 0) (s : St C) (x : Phase A × St C) (d : DigestSet)
        (k : A → St C → Attempt C)
        → Spec w s x
        → ((a : A) → x.0 ≡ done a → x.1.rel ≡ s.rel → IsApply (k a x.1) → P (k a x.1))
        → IsApply (and_then w x d k)
        → P (and_then w x d k)
    unfolding and_then give_up
    through P s (failed f, s') d k spec next h =
        absurd
          (failure_applies_not f.outcome (Spec-fails w interval s (failed f, s') spec f refl) h)
    through P s (done a, s') d k spec next h =
        next a refl (Spec-keeps w interval s (done a, s') spec a refl).0 h

    resolve_done :
        (s : St C) (ref : ArtifactRef)
        → (resolve_release_source w interval s).0 ≡ done ref
        → resolve w.conditions w.quote w.get_source s.rel.spec.source_ref s.rel.metadata.namespace
          ≡ ok ref
    unfolding resolve_release_source
    resolve_done s ref h = ground (arith, h)

    fetch_done :
        (ref : ArtifactRef) (s : St C) (dir : String)
        → (fetch_release_artifact w ref interval s).0 ≡ done dir
        → w.mkdir_temp ≡ ok dir
    unfolding fetch_release_artifact
    fetch_done ref s dir h = ground (arith, h)

    navigate_done :
        (dir : String) (s : St C) (package_dir : String)
        → (navigate_release_path w dir s).0 ≡ done package_dir
        → resolve_package_path w.quote w.stat dir s.rel.spec.path ≡ ok package_dir
    unfolding navigate_release_path
    navigate_done dir s package_dir h = ground (arith, h)

    render_done :
        (package_dir : String) (s : St C) (result : RenderResult)
        → (render_release_package w package_dir s).0 ≡ done result
        → w.render package_dir ≡ ok ("ModuleRelease", result)
    unfolding render_release_package
    render_done package_dir s result h = elim (Result-cases (w.render package_dir)) [
      | inl ((kind, r), e) ↦ e ∙ ground (arith, h, e, eq_iff kind "ModuleRelease")
      | inr (x, e) ↦ absurd (ground (arith, h, e))
    ]

    digests_done :
        (result : RenderResult) (d d' : DigestSet) (s : St C)
        → (compute_release_digests w result d s).0 ≡ done d'
        → (digest : String) × (render_digest w.encoding result.resources ≡ ok digest)
          × (d' ≡ record {
            source = d.source;
            config = config_digest w.encoding (λ raw. none) none;
            render = digest;
            inventory = compute_digest w.encoding result.inventory_entries;
          })
    unfolding compute_release_digests
    digests_done result d d' s h = elim (Result-cases (render_digest w.encoding result.resources)) [
      | inl (digest, e) ↦ (digest, e, ground (arith, h, e))
      | inr (x, e) ↦ absurd (ground (arith, h, e))
    ]

    no_op_stage-Made :
        (d : DigestSet) (result : RenderResult) (s : St C)
        → IsApply (no_op_stage w interval d result s)
        → ((no_op_stage w interval d result s).locals.digests ≡ d)
          × ((no_op_stage w interval d result s).locals.new_entries ≡ result.inventory_entries)
    unfolding no_op_stage
    no_op_stage-Made d result s = elim (Bool-cases (is_no_op d (last_applied w s.rel))) [
      | inl idle ↦ rw (idle, no_op_stage) (λ h. cc)
      | inr busy ↦ rw (busy, no_op_stage) (λ h. apply_stage-Digested w interval d result s h)
    ]

    digest_stage-Made :
        (d : DigestSet) (package_dir : String) (result : RenderResult) (s : St C)
        → w.render package_dir ≡ ok ("ModuleRelease", result)
        → IsApply (digest_stage w interval d result s)
        → IsMadeOf d.source package_dir (digest_stage w interval d result s).locals
    unfolding digest_stage
    digest_stage-Made d package_dir result s rendered =
        let x = compute_release_digests w result d s in
        through (λ a. IsMadeOf d.source package_dir a.locals) s x d
          (λ d' s'. no_op_stage w interval d' result s') (compute_release_digests-Spec w result d s)
          λ d' e _ h.
            let (digest, digested, same) = digests_done result d d' s e in
            let (ds, es) = no_op_stage-Made d' result x.1 h in
            record {
              result = result;
              rendered = rendered;
              digest = digest;
              digested = digested;
              digests_are = ds ∙ same;
              entries_are = es;
            }

    render_stage-Made :
        (d : DigestSet) (package_dir : String) (s : St C)
        → IsApply (render_stage w interval d package_dir s)
        → IsMadeOf d.source package_dir (render_stage w interval d package_dir s).locals
    unfolding render_stage
    render_stage-Made d package_dir s =
        let x = render_release_package w package_dir s in
        through (λ a. IsMadeOf d.source package_dir a.locals) s x d
          (λ result s'. digest_stage w interval d result s')
          (render_release_package-Spec w package_dir s)
          λ result e _ h.
            digest_stage-Made d package_dir result x.1 (render_done package_dir s result e) h

    navigate_stage-Made :
        (d : DigestSet) (dir : String) (s : St C)
        → IsApply (navigate_stage w interval d dir s)
        → (package_dir : String) × (resolve_package_path w.quote w.stat dir s.rel.spec.path
            ≡ ok package_dir)
          × IsMadeOf d.source package_dir (navigate_stage w interval d dir s).locals
    unfolding navigate_stage
    navigate_stage-Made d dir s =
        through
          (λ a.
            (package_dir : String) × (resolve_package_path w.quote w.stat dir s.rel.spec.path
              ≡ ok package_dir)
            × IsMadeOf d.source package_dir a.locals)
          s (navigate_release_path w dir s) d (λ p s'. render_stage w interval d p s')
          (navigate_release_path-Spec w dir s)
          λ p e _ h.
            (p, navigate_done dir s p e, render_stage-Made d p (navigate_release_path w dir s).1 h)

    fetch_stage-Made :
        (ref : ArtifactRef) (d : DigestSet) (s : St C)
        → d.source ≡ ref.digest
        → resolve w.conditions w.quote w.get_source s.rel.spec.source_ref s.rel.metadata.namespace
          ≡ ok ref
        → IsApply (fetch_stage w interval ref d s)
        → IsMade s.rel (fetch_stage w interval ref d s).locals
    unfolding fetch_stage
    fetch_stage-Made ref d s source resolved =
        let x = fetch_release_artifact w ref interval s in
        through (λ a. IsMade s.rel a.locals) s x d
          (λ dir s'. clean_up w dir (navigate_stage w interval d dir s'))
          (fetch_release_artifact-Spec w ref interval s)
          λ dir e same h.
            let (p, navigated, made) = navigate_stage-Made d dir x.1 h in
            record {
              ref = ref;
              resolved = resolved;
              dir = dir;
              extracted = fetch_done ref s dir e;
              package_dir = p;
              navigated =
                  ap (λ (r : Release). resolve_package_path w.quote w.stat dir r.spec.path)
                    (sym same)
                  ∙ navigated;
              made =
                  subst (λ t. IsMadeOf t p (navigate_stage w interval d dir x.1).locals) source
                    made;
            }

    -- A frame does not matter to what an attempt was made from.
    IsMade-same :
        (rel rel' : Release) (l : Locals)
        → rel'.spec ≡ rel.spec
        → rel'.metadata ≡ rel.metadata
        → IsMade rel' l
        → IsMade rel l
    IsMade-same rel rel' l spec metadata m = record {
      ref = m.ref;
      resolved =
          ap (λ sp. resolve w.conditions w.quote w.get_source sp.source_ref rel.metadata.namespace)
            (sym spec)
          ∙ ap (λ md. resolve w.conditions w.quote w.get_source rel'.spec.source_ref md.namespace)
              (sym metadata)
          ∙ m.resolved;
      dir = m.dir;
      extracted = m.extracted;
      package_dir = m.package_dir;
      navigated =
          ap (λ sp. resolve_package_path w.quote w.stat m.dir sp.path) (sym spec) ∙ m.navigated;
      made = m.made;
    }

    -- What an attempt that applies was made from.
    pub attempt-Made :
        (s : St C) → IsApply (attempt w interval s) → IsMade s.rel (attempt w interval s).locals
    unfolding attempt mark
    attempt-Made s =
        let s0 =
          mark (mark_reconciling w.conditions "Progressing" "Reconciliation in progress") s in
        let x = resolve_release_source w interval s0 in
        through (λ a. IsMade s.rel a.locals) s0 x no_digests
          (λ ref s1.
            fetch_stage w interval ref (record (no_digests) { source = ref.digest })
              (set_source w ref s1))
          (resolve_release_source-Spec w interval s0)
          λ ref e same h.
            IsMade-same s.rel (set_source w ref x.1).rel _ (ap (λ (r : Release). r.spec) same)
              (ap (λ (r : Release). r.metadata) same)
              (fetch_stage-Made ref (record (no_digests) { source = ref.digest })
                (set_source w ref x.1) refl
                (ap
                    (λ (r : Release).
                      resolve w.conditions w.quote w.get_source r.spec.source_ref
                        r.metadata.namespace)
                    same
                  ∙ resolve_done s0 ref e)
                h)
