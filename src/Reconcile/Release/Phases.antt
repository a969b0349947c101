-- ===== src/Reconcile/Release/Phases.antt =====
-- The phases of internal/reconcile/release.go: each passes a value on, or fails with the outcome, the
-- message and the delay that the deferred commit records.
use poc_controller.Prelude.{
  ℕ, String, Bool, true, ◌||◌, none, some, List, [], ◌∷◌, ◌==◌, ◌^^◌, contains_text, Error, Result,
  ok, err, wrap, unsupported_kind, release_file_missing, if◌then◌else◌,
}
use poc_controller.Core.{Resource, Unstructured, to_unstructured, resource_string}
use poc_controller.Status.Conditions.{mark_stalled, mark_not_ready}
use poc_controller.Source.{
  ArtifactRef, FetchOptions, resolve, is_permanent_source_error, format_for_kind,
}
use poc_controller.Reconcile.Outcome.{Outcome, failed_transient, failed_stalled}
use poc_controller.Reconcile.Backoff.{stalled_recheck_interval}
use poc_controller.Reconcile.World.{
  World, St, RenderResult, warning, event, fetch, remove_all, call, mark,
}
use poc_controller.Reconcile.Release.Path.{resolve_package_path}

-- phaseFail
pub record PhaseFail : Type 0 where
  pub outcome : Outcome
  pub err_msg : String
  pub retry_after : ℕ

pub data Phase {ℓ} (A : Type ℓ) : Type ℓ where
  done : A → Phase A
  failed : PhaseFail → Phase A

abbrev pub stall : String → PhaseFail
stall msg = record {
  outcome = failed_stalled;
  err_msg = msg;
  retry_after = stalled_recheck_interval;
}

abbrev pub retry : String → ℕ → PhaseFail
retry msg delay = record { outcome = failed_transient; err_msg = msg; retry_after = delay }

abbrev pub path_reason : Error → String
path_reason e = elim e.sentinel [
  | some release_file_missing ↦ "ReleaseFileNotFound"
  | _ ↦ "PathNotFound"
]

-- isResolutionErrorMsg
unfoldable pub is_resolution_error_msg : Error → Bool
is_resolution_error_msg e =
    contains_text e.msg "loading synthesized release"
    || contains_text e.msg "loading release package"
    || contains_text e.msg "resolving"

-- renderErrorReason
unfoldable pub render_error_reason : Error → String
unfolding is_resolution_error_msg
render_error_reason e = elim e.sentinel [
  | some unsupported_kind ↦ "UnsupportedKind"
  | _ ↦ if is_resolution_error_msg e then "ResolutionFailed" else "RenderFailed"
]

-- toUnstructuredSlice
unfoldable pub to_unstructured_slice : List Resource → Result (List Unstructured)
to_unstructured_slice [] = ok []
to_unstructured_slice (r ∷ rs) =
    let rest = to_unstructured_slice rs in
    elim (to_unstructured r) [
      | err e ↦ err (wrap ("converting " ^^ resource_string r ^^ " to unstructured: ") e)
      | ok u ↦ elim rest [ err e ↦ err e | ok us ↦ ok (u ∷ us) ]
    ]

module _ {C : Type 0} (w : World C) where
  open w use {conditions}

  -- resolveReleaseSource
  unfoldable pub resolve_release_source : ℕ → St C → Phase ArtifactRef × St C
  resolve_release_source interval s =
      elim (resolve conditions w.quote w.get_source s.rel.spec.source_ref
        s.rel.metadata.namespace) [
          | ok ref ↦ (done ref, s)
          | err e ↦
              let s1 = call (event warning "SourceNotReady" "Resolve") s in
              if is_permanent_source_error e
              then (failed (stall e.msg), mark (mark_stalled conditions "SourceNotReady" e.msg) s1)
              else (
                failed (retry e.msg interval),
                mark (mark_not_ready conditions "SourceNotReady" e.msg) s1,
              )
        ]

  -- fetchReleaseArtifact
  unfoldable pub fetch_release_artifact : ArtifactRef → ℕ → St C → Phase String × St C
  fetch_release_artifact ref interval s = elim w.mkdir_temp [
    | err e ↦ (
      failed (retry e.msg interval),
      mark (mark_not_ready conditions "FetchFailed" ("creating temp dir: " ^^ e.msg)) s,
    )
    | ok dir ↦
        let opts : FetchOptions = record {
          format = format_for_kind ref.kind;
          skip_root_cue_module_validation = true;
        } in
        let s1 = call (fetch ref.url ref.digest) s in
        elim (w.fetch ref.url ref.digest dir opts) [
          | none ↦ (done dir, s1)
          | some e ↦ (
            failed (retry e.msg interval),
            mark (mark_not_ready conditions "FetchFailed" e.msg)
                (call (event warning "FetchFailed" "Fetch") (call (remove_all dir) s1)),
          )
        ]
  ]

  -- navigateReleasePath
  unfoldable pub navigate_release_path : String → St C → Phase String × St C
  navigate_release_path extract_dir s =
      elim (resolve_package_path w.quote w.stat extract_dir s.rel.spec.path) [
        | ok dir ↦ (done dir, s)
        | err e ↦ (
          failed (stall e.msg),
          call (event warning (path_reason e) "Load")
              (mark (mark_stalled conditions (path_reason e) e.msg) s),
        )
      ]

  -- renderReleasePackage
  unfoldable pub render_release_package : String → St C → Phase RenderResult × St C
  unfolding render_error_reason
  render_release_package package_dir s = elim (w.render package_dir) [
    | err e ↦ (
      failed (stall e.msg),
      call (event warning (render_error_reason e) "Render")
          (mark (mark_stalled conditions (render_error_reason e) e.msg) s),
    )
    | ok (kind, result) ↦
        if kind == "ModuleRelease"
        then (done result, s)
        else let msg = "unexpected release kind " ^^ w.quote kind in
          (failed (stall msg), mark (mark_stalled conditions "UnsupportedKind" msg) s)
  ]
