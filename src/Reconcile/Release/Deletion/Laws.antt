-- ===== src/Reconcile/Release/Deletion/Laws.antt =====
-- handleReleaseDeletion of internal/reconcile/release.go: when the finalizer goes.
use poc_controller.Prelude.{
  String, Bool, true, false, ◌&&◌, ◌==◌, ◌≡◌, inl, inr, refl, ap, ◌∙◌, List, [], ◌∷◌, Error, Result,
  ok, err, eqb, is_none, is_empty, any_of, not, arith, if◌then◌else◌, Bool-cases, Result-cases,
}
use poc_controller.Api.{InventoryEntry}
use poc_controller.Core.{read_label}
use poc_controller.Apply.Prune.{Client}
use poc_controller.Apply.Prune
use poc_controller.Apply.Impersonate.{is_service_account_not_found}
use poc_controller.Reconcile.World.{World, St, ReconcileResult, call, set_release, mark}
use poc_controller.Reconcile.Release.Identity.{resolve_effective_sa, impersonate}
use poc_controller.Reconcile.Release.Deletion.{
  finalizer_name, annotation_force_delete_orphan, without_finalizer, contains_finalizer,
  finish_deletion, patch_release_deletion_status, stall_deletion,
  handle_release_deletion_impersonation_failure, prune_owned, delete_owned, owned_entries,
  delete_or_finish, handle_release_deletion,
}

-- RemoveFinalizer leaves none of the finalizers that it removes.
pub without_finalizer-any_of :
    (fs : List String) → any_of (λ f. f == finalizer_name) (without_finalizer fs) ≡ false
unfolding without_finalizer
without_finalizer-any_of [] = refl
without_finalizer-any_of (f ∷ fs) = ground (arith, without_finalizer-any_of fs)

-- A result that asks for no further reconcile.
abbrev pub is_final : Result ReconcileResult → Bool
is_final (err e) = false
is_final (ok r) = not r.requeue && eqb r.requeue_after 0

module _ {C : Type 0} (w : World C) where
  -- The client that deletes.
  abbrev deleting_client : St C → Result (Client C)
  deleting_client s =
      let (sa, _) =
        resolve_effective_sa s.rel.spec.service_account_name w.default_service_account in
      if not (is_empty sa) && w.has_rest_config then impersonate w s.rel sa else ok w.client

  -- Whether the owned objects are settled with that client: pruned without an error, or given up
  -- because the service account is gone and the annotation says so.
  abbrev settles : List InventoryEntry → St C → Result (Client C) → Bool
  settles entries s (ok client) = is_none (Prune.prune client "" entries s.cluster).1
  settles entries s (err e) =
      is_service_account_not_found e
      && read_label annotation_force_delete_orphan s.rel.metadata.annotations == "true"

  -- Whether a deletion may take the finalizer away.
  abbrev pub may_release : List InventoryEntry → St C → Bool
  may_release [] s = true
  may_release (e ∷ entries) s = settles (e ∷ entries) s (deleting_client s)

  -- The finalizers and the result of a deletion that may release or not.
  abbrev IsDeletion : Bool → St C → Result ReconcileResult × St C → Type 0
  IsDeletion released s (r, s') =
      (s'.rel.metadata.finalizers ≡ (
        if released
        then without_finalizer s.rel.metadata.finalizers
        else s.rel.metadata.finalizers))
      × (is_final r ≡ (released && is_none (w.patch_metadata s'.rel)))

  finish_deletion-Deletion : (s : St C) → IsDeletion true s (finish_deletion w s)
  unfolding finish_deletion call set_release
  finish_deletion-Deletion s = ground arith

  stall_deletion-Deletion :
      (reason msg : String) (s : St C) → IsDeletion false s (stall_deletion w reason msg s)
  unfolding stall_deletion call mark patch_release_deletion_status
  stall_deletion-Deletion reason msg s = ground arith

  prune_owned-Deletion :
      (client : Client C) (sa : String) (entries : List InventoryEntry) (s : St C)
      → IsDeletion (settles entries s (ok client)) s (prune_owned w client sa entries s)
  unfolding prune_owned call stall_deletion finish_deletion mark set_release
      patch_release_deletion_status
  prune_owned-Deletion client sa entries s = ground arith

  impersonation_failure-Deletion :
      (sa : String) (e : Error) (entries : List InventoryEntry) (s : St C)
      → IsDeletion
          (settles entries s (err e))
          s
          (handle_release_deletion_impersonation_failure w sa e s)
  unfolding handle_release_deletion_impersonation_failure call patch_release_deletion_status
      stall_deletion finish_deletion mark set_release
  impersonation_failure-Deletion sa e entries s = ground arith

  delete_owned-Deletion :
      (entries : List InventoryEntry) (s : St C)
      → IsDeletion (settles entries s (deleting_client s)) s (delete_owned w entries s)
  unfolding delete_owned
  delete_owned-Deletion entries s =
      let (sa, _) =
        resolve_effective_sa s.rel.spec.service_account_name w.default_service_account in
      elim (Bool-cases (not (is_empty sa) && w.has_rest_config)) [
        | inl t ↦ elim (Result-cases (impersonate w s.rel sa)) [
          | inl (client, e) ↦ rw (t, e) (prune_owned-Deletion client sa entries s)
          | inr (e', e) ↦ rw (t, e) (impersonation_failure-Deletion sa e' entries s)
        ]
        | inr f ↦ rw f (prune_owned-Deletion w.client sa entries s)
      ]

  delete_or_finish-Deletion :
      (entries : List InventoryEntry) (s : St C)
      → IsDeletion (may_release entries s) s (delete_or_finish w entries s)
  unfolding delete_or_finish
  delete_or_finish-Deletion [] s = finish_deletion-Deletion s
  delete_or_finish-Deletion (e ∷ entries) s = delete_owned-Deletion (e ∷ entries) s

  -- From a release that has the finalizer, a deletion takes it away exactly if it may: nothing is
  -- owned or spec.prune is off, or the prune of everything the inventory names ended without an error,
  -- or the service account is gone and the annotation opm.dev/force-delete-orphan is "true". The
  -- deletion is final, asking for no further reconcile and giving no error, exactly if it may take the
  -- finalizer away and the patch that does so succeeds.
  pub handle_release_deletion_lem :
      (s : St C)
      → contains_finalizer s.rel ≡ true
      → (contains_finalizer (handle_release_deletion w s).1.rel
          ≡ not (may_release (owned_entries w s.rel) s))
        × (is_final (handle_release_deletion w s).0 ≡ (
            may_release (owned_entries w s.rel) s
            && is_none (w.patch_metadata (handle_release_deletion w s).1.rel)))
  unfolding handle_release_deletion
  handle_release_deletion_lem s h =
      let (kept, final) = delete_or_finish-Deletion (owned_entries w s.rel) s in
      (
        ap (any_of (λ f. f == finalizer_name)) kept
            ∙ ground (arith, without_finalizer-any_of s.rel.metadata.finalizers),
        final,
      )
