-- ===== src/Reconcile/Module/Applying.antt =====
-- The helpers of the last phases of internal/reconcile/modulerelease.go: detectDrift,
-- pruneStaleResources, buildApplyClient, extractReleaseUUID.
use poc_controller.Prelude.{
  ℕ, String, Bool, true, false, not, ◌&&◌, ◌||◌, Option, none, some, List, [], ◌∷◌, length, decimal,
  ltb, is_empty, contains_text, Error, Result, ok, err, if◌then◌else◌,
}
use poc_controller.Api.{ModuleRelease, Inventory, InventoryEntry, FailureCounters}
use poc_controller.Core.{Unstructured, read_label, label_module_release_uuid}
use poc_controller.Status.Conditions.{mark_stalled, mark_not_ready, mark_drifted, clear_drifted}
use poc_controller.Apply.Ssa.{ResourceManager}
use poc_controller.Apply.Drift.{detect_drift}
use poc_controller.Apply.Prune
use poc_controller.Apply.Prune.{Client}
use poc_controller.Apply.Impersonate.{is_forbidden, new_impersonated_client}
use poc_controller.Reconcile.Outcome.{
  Outcome, applied, applied_and_pruned, failed_transient, failed_stalled,
}
use poc_controller.Reconcile.World.{normal, warning}
use poc_controller.Reconcile.Release.Identity.{resolve_effective_sa}
use poc_controller.Reconcile.Module.World.{ModuleWorld, ModuleState, Effect, event, emit, annotate}

-- isResolutionError
unfoldable pub is_resolution_error : Error → Bool
is_resolution_error e =
    contains_text e.msg "loading synthesized release" || contains_text e.msg "synthesizing release"

-- extractReleaseUUID
unfoldable pub extract_release_uuid : List Unstructured → String
extract_release_uuid [] = ""
extract_release_uuid (r ∷ rs) =
    let rest = extract_release_uuid rs in
    let uuid = read_label label_module_release_uuid r.labels in
    if not (is_empty uuid) then uuid else rest

-- reconcileFailureCount
abbrev pub reconcile_failure_count : Option FailureCounters → ℕ
reconcile_failure_count none = 0
reconcile_failure_count (some c) = c.reconcile

-- inventoryDigest
abbrev pub inventory_digest : Option Inventory → String
inventory_digest none = ""
inventory_digest (some inv) = inv.digest

-- What pruneStaleResources returns, its count of deleted objects aside.
pub record StalePrune : Type 0 where
  pub outcome : Outcome
  pub reconciled : Bool
  pub error : Option Error

module _ {C : Type 0} (w : ModuleWorld C) where
  open w use {conditions}

  -- detectDrift: whether the detection failed, and the release with its Drifted condition
  unfoldable pub detect_module_drift : List Unstructured → ModuleState C → Bool × ModuleState C
  detect_module_drift resources s = elim (detect_drift w.resource_manager resources s.cluster) [
    | err e ↦ (true, s)
    | ok result ↦ (
      false,
      if result.drifted
          then annotate (mark_drifted conditions (decimal (length result.resources))) s
          else annotate (clear_drifted conditions) s,
    )
  ]

  -- the event of pruneStaleResources on the objects that it deleted
  abbrev note_pruned : ℕ → ModuleState C → ModuleState C
  note_pruned deleted s = if ltb 0 deleted then emit (event normal "Pruned" "Prune") s else s

  -- the branch of pruneStaleResources on an error
  unfoldable pub fail_prune : String → Error → ModuleState C → StalePrune × ModuleState C
  fail_prune sa e s =
      let s1 = emit (event warning "PruneFailed" "Prune") s in
      if not (is_empty sa) && is_forbidden e
      then (
        record { outcome = failed_stalled; reconciled = false; error = none },
        annotate (mark_stalled conditions "ImpersonationFailed" e.msg) s1,
      )
      else (
        record { outcome = failed_transient; reconciled = false; error = some e },
        annotate (mark_not_ready conditions "PruneFailed" e.msg) s1,
      )

  -- pruneStaleResources
  unfoldable pub prune_stale_resources :
      Client C → List InventoryEntry → String → ModuleState C → StalePrune × ModuleState C
  unfolding fail_prune
  prune_stale_resources client stale sa s =
      if not s.mr.spec.prune || not (ltb 0 (length stale))
      then (record { outcome = applied; reconciled = true; error = none }, s)
      else (let uuid = s.mr.status.release_uuid in
          let (counts, error, c) = Prune.prune client uuid stale s.cluster in
          let s1 = emit (Effect.prune uuid stale) (record s { cluster = c }) in
          elim error [
            | some e ↦ fail_prune sa e s1
            | none ↦ (
              record { outcome = applied_and_pruned; reconciled = true; error = none },
              note_pruned counts.deleted s1,
            )
          ])

  -- buildApplyClient
  unfoldable pub build_apply_client : ModuleRelease → Result (ResourceManager C × Client C)
  unfolding resolve_effective_sa
  build_apply_client mr =
      let (sa, _) = resolve_effective_sa mr.spec.service_account_name w.default_service_account in
      if is_empty sa
      then ok (w.resource_manager, w.client)
      else elim (new_impersonated_client w.read_service_account w.new_client mr.metadata.namespace
          sa) [ err e ↦ err e | ok c ↦ ok (w.new_resource_manager c, c) ]
