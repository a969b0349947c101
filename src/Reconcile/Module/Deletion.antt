-- ===== src/Reconcile/Module/Deletion.antt =====
-- handleDeletion and its helpers, of internal/reconcile/modulerelease.go.
pub mod Laws
use poc_controller.Prelude.{
  String, not, ◌&&◌, none, some, List, [], ◌∷◌, ◌==◌, is_empty, Error, Result, ok, err, wrap,
  if◌then◌else◌,
}
use poc_controller.Api.{ModuleRelease, InventoryEntry}
use poc_controller.Core.{read_label}
use poc_controller.Status.Conditions.{mark_stalled}
use poc_controller.Apply.Prune.{Client}
use poc_controller.Apply.Prune
use poc_controller.Apply.Impersonate.{
  is_forbidden, is_service_account_not_found, new_impersonated_client,
}
use poc_controller.Reconcile.World.{warning, ReconcileResult}
use poc_controller.Reconcile.Release.Identity.{resolve_effective_sa}
use poc_controller.Reconcile.Release.Deletion.{
  annotation_force_delete_orphan, without_finalizer, ready_already_stalled_with,
  deletion_sa_missing_message, requeue_stalled, no_requeue,
}
use poc_controller.Reconcile.Module.World.{
  ModuleWorld, ModuleState, Effect, event, patch_metadata, patch_status, emit, annotate,
}

abbrev pub with_finalizers : List String → ModuleRelease → ModuleRelease
with_finalizers fs mr = record mr { metadata = record (mr.metadata) { finalizers = fs } }

module _ {C : Type 0} (w : ModuleWorld C) where
  open w use {conditions}

  -- removeFinalizer, and the returns that follow it
  unfoldable pub remove_finalizer : ModuleState C → Result ReconcileResult × ModuleState C
  remove_finalizer s =
      let mr = with_finalizers (without_finalizer s.mr.metadata.finalizers) s.mr in
      let s' = emit (patch_metadata mr) (record s { mr = mr }) in
      elim (w.patch_metadata mr) [
        | some e ↦ (err (wrap "removing finalizer: " e), s')
        | none ↦ (ok no_requeue, s')
      ]

  -- patchDeletionStatus, whose error is only logged
  unfoldable pub patch_deletion_status : ModuleState C → ModuleState C
  patch_deletion_status s = emit (patch_status s.mr) s

  -- a stall of the deletion: the event is sent unless Ready says the same already
  unfoldable pub stall_module_deletion :
      String → String → ModuleState C → Result ReconcileResult × ModuleState C
  unfolding patch_deletion_status ready_already_stalled_with
  stall_module_deletion reason msg s =
      let known = ready_already_stalled_with conditions s.mr.status.conditions reason in
      let s1 = annotate (mark_stalled conditions reason msg) s in
      let s2 = if known then s1 else emit (event warning reason "Delete") s1 in
      (ok requeue_stalled, patch_deletion_status s2)

  -- `mr.Status.Inventory = nil`
  abbrev pub orphan : ModuleState C → ModuleState C
  orphan s = record s { mr = record (s.mr) { status = record (s.mr.status) { inventory = none } } }

  -- handleDeletionImpersonationFailure
  unfoldable pub handle_deletion_impersonation_failure :
      String → Error → ModuleState C → Result ReconcileResult × ModuleState C
  unfolding stall_module_deletion remove_finalizer
  handle_deletion_impersonation_failure sa e s =
      if is_service_account_not_found e
      then (if read_label annotation_force_delete_orphan s.mr.metadata.annotations == "true"
          then remove_finalizer (
              patch_deletion_status (orphan (emit (event warning "OrphanedOnDeletion" "Delete") s)))
          else stall_module_deletion "DeletionSAMissing"
              (deletion_sa_missing_message w.quote s.mr.metadata.namespace sa) s)
      else stall_module_deletion "ImpersonationFailed" e.msg s

  -- the part of handleDeletion that prunes
  unfoldable pub prune_owned_resources :
      Client C
      → String
      → List InventoryEntry
      → ModuleState C
      → Result ReconcileResult × ModuleState C
  unfolding stall_module_deletion remove_finalizer
  prune_owned_resources client sa entries s =
      let uuid = s.mr.status.release_uuid in
      let (_, error, c) = Prune.prune client uuid entries s.cluster in
      let s1 = emit (Effect.prune uuid entries) (record s { cluster = c }) in
      elim error [
        | none ↦ remove_finalizer s1
        | some e ↦
            if not (is_empty sa) && is_forbidden e
            then stall_module_deletion "ImpersonationFailed" e.msg s1
            else (err e, s1)
      ]

  -- the choice of the client that deletes
  unfoldable pub delete_owned_resources :
      List InventoryEntry → ModuleState C → Result ReconcileResult × ModuleState C
  unfolding prune_owned_resources handle_deletion_impersonation_failure resolve_effective_sa
  delete_owned_resources entries s =
      let (sa, _) = resolve_effective_sa s.mr.spec.service_account_name w.default_service_account in
      if not (is_empty sa) && w.has_rest_config
      then (elim (new_impersonated_client w.read_service_account w.new_client
          s.mr.metadata.namespace sa) [
            | err e ↦ handle_deletion_impersonation_failure sa e s
            | ok client ↦ prune_owned_resources client sa entries s
          ])
      else prune_owned_resources w.client sa entries s

  -- the entries to prune: none without spec.prune or an inventory
  abbrev pub owned_by_module : ModuleRelease → List InventoryEntry
  owned_by_module mr =
      if mr.spec.prune
      then (elim mr.status.inventory [ none ↦ [] | some inv ↦ inv.entries ])
      else []

  unfoldable pub delete_if_owned :
      List InventoryEntry → ModuleState C → Result ReconcileResult × ModuleState C
  unfolding delete_owned_resources
  delete_if_owned [] s = remove_finalizer s
  delete_if_owned (e ∷ entries) s = delete_owned_resources (e ∷ entries) s

  -- handleDeletion
  unfoldable pub handle_deletion : ModuleState C → Result ReconcileResult × ModuleState C
  unfolding delete_if_owned
  handle_deletion s = delete_if_owned (owned_by_module s.mr) s
