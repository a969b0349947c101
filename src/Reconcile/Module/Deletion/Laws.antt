-- ===== src/Reconcile/Module/Deletion/Laws.antt =====
-- handleDeletion of internal/reconcile/modulerelease.go: when the finalizer goes.
use poc_controller.Prelude.{
  String, Bool, true, false, ◌&&◌, ◌==◌, ◌≡◌, inl, inr, ap, ◌∙◌, List, [], ◌∷◌, Error, Result, ok,
  err, is_none, is_empty, any_of, not, arith, if◌then◌else◌, Bool-cases, Result-cases,
}
use poc_controller.Api.{InventoryEntry}
use poc_controller.Core.{read_label}
use poc_controller.Apply.Prune.{Client}
use poc_controller.Apply.Prune
use poc_controller.Apply.Impersonate.{is_service_account_not_found, new_impersonated_client}
use poc_controller.Reconcile.World.{ReconcileResult}
use poc_controller.Reconcile.Release.Identity.{resolve_effective_sa}
use poc_controller.Reconcile.Release.Deletion.{
  finalizer_name, annotation_force_delete_orphan, without_finalizer,
}
use poc_controller.Reconcile.Release.Deletion.Laws.{is_final, without_finalizer-any_of}
use poc_controller.Reconcile.Module.World.{ModuleWorld, ModuleState, emit, annotate}
use poc_controller.Reconcile.Module.Deletion.{
  remove_finalizer, patch_deletion_status, stall_module_deletion,
  handle_deletion_impersonation_failure, prune_owned_resources, delete_owned_resources,
  owned_by_module, delete_if_owned, handle_deletion,
}
use poc_controller.Reconcile.Module.Loop.{has_finalizer}

module _ {C : Type 0} (w : ModuleWorld C) where
  -- The client that deletes.
  abbrev module_deleting_client : ModuleState C → Result (Client C)
  module_deleting_client s =
      let (sa, _) = resolve_effective_sa s.mr.spec.service_account_name w.default_service_account in
      if not (is_empty sa) && w.has_rest_config
      then new_impersonated_client w.read_service_account w.new_client s.mr.metadata.namespace sa
      else ok w.client

  -- Whether the owned objects are settled with that client: pruned without an error, as the owner that
  -- the status names, or given up because the service account is gone and the annotation says so.
  abbrev are_settled : List InventoryEntry → ModuleState C → Result (Client C) → Bool
  are_settled entries s (ok client) =
      is_none (Prune.prune client s.mr.status.release_uuid entries s.cluster).1
  are_settled entries s (err e) =
      is_service_account_not_found e
      && read_label annotation_force_delete_orphan s.mr.metadata.annotations == "true"

  -- Whether a deletion may take the finalizer away.
  abbrev pub may_finish : List InventoryEntry → ModuleState C → Bool
  may_finish [] s = true
  may_finish (e ∷ entries) s = are_settled (e ∷ entries) s (module_deleting_client s)

  -- The finalizers and the result of a deletion that may finish or not.
  abbrev IsModuleDeletion : Bool → ModuleState C → Result ReconcileResult × ModuleState C → Type 0
  IsModuleDeletion released s (r, s') =
      (s'.mr.metadata.finalizers ≡ (
        if released then without_finalizer s.mr.metadata.finalizers else s.mr.metadata.finalizers))
      × (is_final r ≡ (released && is_none (w.patch_metadata s'.mr)))

  remove_finalizer-Deletion : (s : ModuleState C) → IsModuleDeletion true s (remove_finalizer w s)
  unfolding remove_finalizer emit
  remove_finalizer-Deletion s = ground arith

  stall_module_deletion-Deletion :
      (reason msg : String) (s : ModuleState C)
      → IsModuleDeletion false s (stall_module_deletion w reason msg s)
  unfolding stall_module_deletion emit annotate patch_deletion_status
  stall_module_deletion-Deletion reason msg s = ground arith

  prune_owned_resources-Deletion :
      (client : Client C) (sa : String) (entries : List InventoryEntry) (s : ModuleState C)
      → IsModuleDeletion
          (are_settled entries s (ok client))
          s
          (prune_owned_resources w client sa entries s)
  unfolding prune_owned_resources emit stall_module_deletion remove_finalizer annotate
      patch_deletion_status
  prune_owned_resources-Deletion client sa entries s = ground arith

  impersonation_failure-ModuleDeletion :
      (sa : String) (e : Error) (entries : List InventoryEntry) (s : ModuleState C)
      → IsModuleDeletion
          (are_settled entries s (err e))
          s
          (handle_deletion_impersonation_failure w sa e s)
  unfolding handle_deletion_impersonation_failure emit patch_deletion_status stall_module_deletion
      remove_finalizer annotate
  impersonation_failure-ModuleDeletion sa e entries s = ground arith

  delete_owned_resources-Deletion :
      (entries : List InventoryEntry) (s : ModuleState C)
      → IsModuleDeletion
          (are_settled entries s (module_deleting_client s))
          s
          (delete_owned_resources w entries s)
  unfolding delete_owned_resources
  delete_owned_resources-Deletion entries s =
      let (sa, _) = resolve_effective_sa s.mr.spec.service_account_name w.default_service_account in
      elim (Bool-cases (not (is_empty sa) && w.has_rest_config)) [
        | inl t ↦
            elim (Result-cases (
              new_impersonated_client w.read_service_account w.new_client s.mr.metadata.namespace
                sa)) [
                  | inl (client, e) ↦
                      rw (t, e, delete_owned_resources)
                        (prune_owned_resources-Deletion client sa entries s)
                  | inr (e', e) ↦
                      rw (t, e, delete_owned_resources)
                        (impersonation_failure-ModuleDeletion sa e' entries s)
                ]
        | inr f ↦
            rw (f, delete_owned_resources) (prune_owned_resources-Deletion w.client sa entries s)
      ]

  delete_if_owned-Deletion :
      (entries : List InventoryEntry) (s : ModuleState C)
      → IsModuleDeletion (may_finish entries s) s (delete_if_owned w entries s)
  unfolding delete_if_owned
  delete_if_owned-Deletion [] s = remove_finalizer-Deletion s
  delete_if_owned-Deletion (e ∷ entries) s = delete_owned_resources-Deletion (e ∷ entries) s

  -- From a ModuleRelease that has the finalizer, a deletion takes it away exactly if it may: nothing is
  -- owned or spec.prune is off, or the prune of everything the inventory names, as the owner that the
  -- status names, ended without an error, or the service account is gone and the annotation
  -- opm.dev/force-delete-orphan is "true". The deletion is final, asking for no further reconcile and
  -- giving no error, exactly if it may take the finalizer away and the patch that does so succeeds.
  pub handle_deletion_lem :
      (s : ModuleState C)
      → has_finalizer s.mr ≡ true
      → (has_finalizer (handle_deletion w s).1.mr ≡ not (may_finish (owned_by_module w s.mr) s))
        × (is_final (handle_deletion w s).0 ≡ (
            may_finish (owned_by_module w s.mr) s
            && is_none (w.patch_metadata (handle_deletion w s).1.mr)))
  unfolding handle_deletion
  handle_deletion_lem s h =
      let (kept, final) = delete_if_owned-Deletion (owned_by_module w s.mr) s in
      (
        ap (any_of (λ f. f == finalizer_name)) kept
            ∙ ground (arith, without_finalizer-any_of s.mr.metadata.finalizers),
        final,
      )
