-- ===== src/Reconcile/Release/Attempt/Marks.antt =====
-- The phases of internal/reconcile/release.go as runs of Mark calls: a phase that passes leaves the
-- release alone, and one that fails ends in the Mark call of its outcome.
use poc_controller.Prelude.{
  ℕ, String, true, ◌≡◌, ◌⊎◌, inl, inr, refl, List, [], ◌∷◌, ◌^^◌, ◌==◌, Bool-cases, Option-cases,
  Result-cases,
}
use poc_controller.Api.{Release}
use poc_controller.Status.Conditions.Laws.{MarkCall, stalled, not_ready, run_mark, run_marks}
use poc_controller.Status.Digests.{DigestSet, render_digest}
use poc_controller.Source.{ArtifactRef, resolve, is_permanent_source_error, format_for_kind}
use poc_controller.Reconcile.Outcome.{Outcome, failed_stalled, is_failure}
use poc_controller.Reconcile.World.{World, St, RenderResult, call, mark}
use poc_controller.Reconcile.Release.Path.{resolve_package_path}
use poc_controller.Reconcile.Release.Phases.{
  PhaseFail, Phase, done, failed, stall, retry, path_reason, render_error_reason,
  resolve_release_source, fetch_release_artifact, navigate_release_path, render_release_package,
}
use poc_controller.Reconcile.Release.Attempt.{compute_release_digests}

-- The Mark call with which a failure of this outcome ends.
abbrev pub last_mark : Outcome → String → String → MarkCall
last_mark failed_stalled r m = stalled r m
last_mark _ r m = not_ready r m

module _ {C : Type 0} (w : World C) where
  -- The release with its conditions after some Mark calls.
  abbrev pub remark : List MarkCall → Release → Release
  remark calls rel = record rel {
    status = record (rel.status) {
      conditions = run_marks w.conditions calls rel.status.conditions;
    };
  }

  -- A failure, its last Mark call, and a cluster left alone.
  abbrev pub IsFailed : PhaseFail → St C → St C → Type 0
  IsFailed f s s' =
      (is_failure f.outcome ≡ true)
      × ((r : String) × (m : String) × (s'.rel ≡ remark (last_mark f.outcome r m ∷ []) s.rel))
      × (s'.cluster ≡ s.cluster)

  -- The two ways in which a phase before the apply may end.
  abbrev pub Spec : {A : Type 0} → St C → Phase A × St C → Type 0
  Spec {A} s r =
      ((a : A) × (r.0 ≡ done a) × (r.1.rel ≡ s.rel) × (r.1.cluster ≡ s.cluster))
      ⊎ ((f : PhaseFail) × (r.0 ≡ failed f) × IsFailed f s r.1)

  pub resolve_release_source-Spec :
      (interval : ℕ) (s : St C) → Spec s (resolve_release_source w interval s)
  unfolding resolve_release_source mark call run_mark run_marks
  resolve_release_source-Spec interval s =
      elim (Result-cases (
        resolve w.conditions w.quote w.get_source s.rel.spec.source_ref s.rel.metadata.namespace)) [
          | inl (ref, e) ↦ rw (e, resolve_release_source) (inl (ref, refl, refl, refl))
          | inr (x, e) ↦ elim (Bool-cases (is_permanent_source_error x)) [
            | inl p ↦
                rw (e, p, resolve_release_source)
                  (inr (stall x.msg, refl, (refl, ("SourceNotReady", x.msg, refl), refl)))
            | inr p ↦
                rw (e, p, resolve_release_source)
                  (inr (retry x.msg interval, refl, (refl, ("SourceNotReady", x.msg, refl), refl)))
          ]
        ]

  pub fetch_release_artifact-Spec :
      (ref : ArtifactRef) (interval : ℕ) (s : St C)
      → Spec s (fetch_release_artifact w ref interval s)
  unfolding fetch_release_artifact mark call run_mark run_marks
  fetch_release_artifact-Spec ref interval s = elim (Result-cases w.mkdir_temp) [
    | inr (x, e) ↦
        rw (e, fetch_release_artifact)
          (inr (
            retry x.msg interval,
            refl,
            (refl, ("FetchFailed", "creating temp dir: " ^^ x.msg, refl), refl),
          ))
    | inl (dir, e) ↦
        elim (Option-cases (
          w.fetch ref.url ref.digest dir (record {
            format = format_for_kind ref.kind;
            skip_root_cue_module_validation = true;
          }))) [
            | inl ok_ ↦ rw (e, ok_, fetch_release_artifact) (inl (dir, refl, refl, refl))
            | inr (x, bad) ↦
                rw (e, bad, fetch_release_artifact)
                  (inr (retry x.msg interval, refl, (refl, ("FetchFailed", x.msg, refl), refl)))
          ]
  ]

  pub navigate_release_path-Spec :
      (dir : String) (s : St C) → Spec s (navigate_release_path w dir s)
  unfolding navigate_release_path mark call run_mark run_marks
  navigate_release_path-Spec dir s =
      elim (Result-cases (resolve_package_path w.quote w.stat dir s.rel.spec.path)) [
        | inl (target, e) ↦ rw (e, navigate_release_path) (inl (target, refl, refl, refl))
        | inr (x, e) ↦
            rw (e, navigate_release_path)
              (inr (stall x.msg, refl, (refl, (path_reason x, x.msg, refl), refl)))
      ]

  pub render_release_package-Spec :
      (dir : String) (s : St C) → Spec s (render_release_package w dir s)
  unfolding render_release_package mark call run_mark run_marks
  render_release_package-Spec dir s = elim (Result-cases (w.render dir)) [
    | inr (x, e) ↦
        rw (e, render_release_package)
          (inr (stall x.msg, refl, (refl, (render_error_reason x, x.msg, refl), refl)))
    | inl ((kind, result), e) ↦ elim (Bool-cases (kind == "ModuleRelease")) [
      | inl is ↦ rw (e, is, render_release_package) (inl (result, refl, refl, refl))
      | inr other ↦
          rw (e, other, render_release_package)
            (inr (
              stall ("unexpected release kind " ^^ w.quote kind),
              refl,
              (refl, ("UnsupportedKind", "unexpected release kind " ^^ w.quote kind, refl), refl),
            ))
    ]
  ]

  pub compute_release_digests-Spec :
      (result : RenderResult) (d : DigestSet) (s : St C)
      → Spec s (compute_release_digests w result d s)
  unfolding compute_release_digests mark call run_mark run_marks
  compute_release_digests-Spec result d s =
      elim (Result-cases (render_digest w.encoding result.resources)) [
        | inl (digest, e) ↦ rw (e, compute_release_digests) (inl (_, refl, refl, refl))
        | inr (x, e) ↦
            rw (e, compute_release_digests)
              (inr (
                stall x.msg,
                refl,
                (refl, ("RenderFailed", "computing render digest: " ^^ x.msg, refl), refl),
              ))
      ]
