-- ===== src/Reconcile/Release/Deletion.antt =====
-- handleReleaseDeletion and its helpers, of internal/reconcile/release.go and modulerelease.go.
pub mod Laws
use poc_controller.Prelude.{
  ℕ, String, Bool, true, false, not, ◌&&◌, ◌||◌, Option, none, some, List, [], ◌∷◌, ◌++◌, ◌==◌,
  ◌^^◌, is_empty, any_of, Error, Result, ok, err, wrap, if◌then◌else◌,
}
use poc_controller.Api.{Release, Inventory, InventoryEntry, Condition, ConditionStatus, is_false}
use poc_controller.Core.{read_label}
use poc_controller.Status.Conditions.{ConditionApi, ready_condition, mark_stalled}
use poc_controller.Apply.Prune.{Client}
use poc_controller.Apply.Prune
use poc_controller.Apply.Impersonate.{is_forbidden, is_service_account_not_found}
use poc_controller.Reconcile.Backoff.{stalled_recheck_interval}
use poc_controller.Reconcile.World.{
  World, St, Call, warning, event, patch_metadata, patch_status, call, mark, set_release,
  ReconcileResult,
}
use poc_controller.Reconcile.Release.Identity.{resolve_effective_sa, impersonate}

abbrev pub finalizer_name : String
finalizer_name = "releases.opmodel.dev/cleanup"

abbrev pub annotation_force_delete_orphan : String
annotation_force_delete_orphan = "opm.dev/force-delete-orphan"

-- controllerutil.ContainsFinalizer, AddFinalizer and RemoveFinalizer
abbrev pub contains_finalizer : Release → Bool
contains_finalizer rel = any_of (λ f. f == finalizer_name) rel.metadata.finalizers

unfoldable pub without_finalizer : List String → List String
without_finalizer [] = []
without_finalizer (f ∷ fs) =
    let rest = without_finalizer fs in if f == finalizer_name then rest else f ∷ rest

abbrev pub set_finalizers : List String → Release → Release
set_finalizers fs rel = record rel { metadata = record (rel.metadata) { finalizers = fs } }

-- readyAlreadyStalledWith
unfoldable pub ready_already_stalled_with : ConditionApi → List Condition → String → Bool
ready_already_stalled_with api cs reason = elim (api.find ready_condition cs) [
  | none ↦ false
  | some ready ↦ elim ready.status [ is_false ↦ ready.reason == reason | _ ↦ false ]
]

-- deletionSAMissingMessage
unfoldable pub deletion_sa_missing_message : (String → String) → String → String → String
deletion_sa_missing_message quote namespace sa =
    "ServiceAccount "
    ^^ quote (namespace ^^ "/" ^^ sa)
    ^^ " not found; cannot prune owned resources during deletion. Recovery options: (1) Restore the ServiceAccount and its RBAC; (2) Set spec.prune=false on the release and delete again to orphan resources without prune; (3) Add annotation "
    ^^ quote annotation_force_delete_orphan
    ^^ "="
    ^^ quote "true"
    ^^ " to the release to remove the finalizer and leave resources behind (operator is responsible for cleanup)."

abbrev pub requeue_stalled : ReconcileResult
requeue_stalled = record { requeue = false; requeue_after = stalled_recheck_interval }

abbrev pub no_requeue : ReconcileResult
no_requeue = record { requeue = false; requeue_after = 0 }

module _ {C : Type 0} (w : World C) where
  open w use {conditions}

  -- removeReleaseFinalizer, and the returns that follow it
  unfoldable pub finish_deletion : St C → Result ReconcileResult × St C
  finish_deletion s =
      let rel = set_finalizers (without_finalizer s.rel.metadata.finalizers) s.rel in
      let s' = call (patch_metadata rel) (set_release rel s) in
      elim (w.patch_metadata rel) [
        | some e ↦ (err (wrap "removing finalizer: " e), s')
        | none ↦ (ok no_requeue, s')
      ]

  -- patchReleaseDeletionStatus, whose error is only logged
  unfoldable pub patch_release_deletion_status : St C → St C
  patch_release_deletion_status s = call (patch_status s.rel) s

  -- a stall of the deletion: the event is sent unless Ready says the same already
  unfoldable pub stall_deletion : String → String → St C → Result ReconcileResult × St C
  unfolding patch_release_deletion_status ready_already_stalled_with
  stall_deletion reason msg s =
      let known = ready_already_stalled_with conditions s.rel.status.conditions reason in
      let s1 = mark (mark_stalled conditions reason msg) s in
      let s2 = if known then s1 else call (event warning reason "Delete") s1 in
      (ok requeue_stalled, patch_release_deletion_status s2)

  -- `rel.Status.Inventory = nil`
  abbrev pub clear_inventory : St C → St C
  clear_inventory s = record s {
    rel = record (s.rel) { status = record (s.rel.status) { inventory = none } };
  }

  -- handleReleaseDeletionImpersonationFailure
  unfoldable pub handle_release_deletion_impersonation_failure :
      String → Error → St C → Result ReconcileResult × St C
  unfolding stall_deletion finish_deletion
  handle_release_deletion_impersonation_failure sa e s =
      if is_service_account_not_found e
      then (if read_label annotation_force_delete_orphan s.rel.metadata.annotations == "true"
          then finish_deletion (
              patch_release_deletion_status
                (clear_inventory (call (event warning "OrphanedOnDeletion" "Delete") s)))
          else stall_deletion "DeletionSAMissing"
              (deletion_sa_missing_message w.quote s.rel.metadata.namespace sa) s)
      else stall_deletion "ImpersonationFailed" e.msg s

  -- the part of handleReleaseDeletion that prunes
  unfoldable pub prune_owned :
      Client C → String → List InventoryEntry → St C → Result ReconcileResult × St C
  unfolding stall_deletion finish_deletion
  prune_owned client sa entries s =
      let (_, error, c) = Prune.prune client "" entries s.cluster in
      let s1 = call (Call.prune "" entries) (record s { cluster = c }) in
      elim error [
        | none ↦ finish_deletion s1
        | some e ↦
            if not (is_empty sa) && is_forbidden e
            then stall_deletion "ImpersonationFailed" e.msg s1
            else (err e, s1)
      ]

  -- the choice of the client that deletes
  delete_owned : List InventoryEntry → St C → Result ReconcileResult × St C
  unfolding prune_owned handle_release_deletion_impersonation_failure
  delete_owned entries s =
      let (sa, _) =
        resolve_effective_sa s.rel.spec.service_account_name w.default_service_account in
      if not (is_empty sa) && w.has_rest_config
      then (elim (impersonate w s.rel sa) [
        | err e ↦ handle_release_deletion_impersonation_failure sa e s
        | ok client ↦ prune_owned client sa entries s
      ])
      else prune_owned w.client sa entries s

  -- the entries to prune: none without spec.prune or an inventory
  abbrev pub owned_entries : Release → List InventoryEntry
  owned_entries rel =
      if rel.spec.prune
      then (elim rel.status.inventory [ none ↦ [] | some inv ↦ inv.entries ])
      else []

  delete_or_finish : List InventoryEntry → St C → Result ReconcileResult × St C
  unfolding delete_owned
  delete_or_finish [] s = finish_deletion s
  delete_or_finish (e ∷ entries) s = delete_owned (e ∷ entries) s

  -- handleReleaseDeletion
  unfoldable pub handle_release_deletion : St C → Result ReconcileResult × St C
  unfolding delete_or_finish
  handle_release_deletion s = delete_or_finish (owned_entries s.rel) s
