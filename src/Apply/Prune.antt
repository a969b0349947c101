-- ===== src/Apply/Prune.antt =====
-- internal/apply/prune.go: the deletion of stale resources, under the guards of the live object.
pub mod Safety
pub mod Settled
use poc_controller.Prelude.{
  ℕ, ◌+◌, String, Bool, true, false, not, ◌&&◌, ◌||◌, Option, none, some, List, [], ◌∷◌, ◌++◌, ◌==◌,
  ◌^^◌, is_empty, Error, Result, ok, err, wrap, ApiReason, if◌then◌else◌,
}
use poc_controller.Api.{InventoryEntry}
use poc_controller.Core.{
  Unstructured, read_label, is_opm_managed_by, label_managed_by, label_module_release_uuid,
}
use poc_controller.Apply.Impersonate.{is_not_found}

pub record PruneResult : Type 0 where
  pub deleted : ℕ
  pub skipped : ℕ

-- The client's calls over the state `C` of the cluster: `get` reads the live object of an entry's
-- group, version, kind, namespace and name; `delete` may fail, and gives the state after the call.
pub record Client (C : Type 0) : Type 0 where
  pub get : InventoryEntry → C → Result Unstructured
  pub delete : Unstructured → C → Option Error × C

-- isSafeToDelete
unfoldable pub is_safe_to_delete : InventoryEntry → Bool
is_safe_to_delete entry =
    if entry.kind == "Namespace" || entry.kind == "CustomResourceDefinition" then false else true

-- What the loop of Prune carries: the counts, the errors and the cluster.
pub record PruneState (C : Type 0) : Type 0 where
  pub deleted : ℕ
  pub skipped : ℕ
  pub errors : List Error
  pub cluster : C

-- The two guards on the live object's labels, in the order of the code.
unfoldable pub is_owned : String → Unstructured → Bool
is_owned owner_uuid live =
    if not (is_opm_managed_by (read_label label_managed_by live.labels))
    then false
    else let live_uuid = read_label label_module_release_uuid live.labels in
      if not (is_empty owner_uuid) && not (is_empty live_uuid) && not (live_uuid == owner_uuid)
      then false
      else true

module _ {C : Type 0} (client : Client C) (owner_uuid : String) where
  abbrev pub described : String → InventoryEntry → Error → Error
  described verb entry e =
      wrap
        ("failed to " ^^ verb ^^ " " ^^ entry.namespace ^^ "/" ^^ entry.name ^^ " " ^^ entry.kind
          ^^ ": ")
        e

  -- after c.Delete
  pub after_delete : InventoryEntry → PruneState C → Option Error × C → PruneState C
  after_delete entry s (none, c) = record s { deleted = s.deleted + 1; cluster = c }
  after_delete entry s (some e, c) =
      if is_not_found e
      then record s { cluster = c }
      else record s { errors = s.errors ++ described "delete" entry e ∷ []; cluster = c }

  -- after c.Get
  pub after_get : InventoryEntry → PruneState C → Result Unstructured → PruneState C
  unfolding after_delete
  after_get entry s (err e) =
      if is_not_found e then s else record s { errors = s.errors ++ described "get" entry e ∷ [] }
  after_get entry s (ok live) =
      if is_owned owner_uuid live
      then after_delete entry s (client.delete live s.cluster)
      else record s { skipped = s.skipped + 1 }

  -- one round of the loop
  unfoldable pub prune_entry : InventoryEntry → PruneState C → PruneState C
  unfolding after_get
  prune_entry entry s =
      if is_safe_to_delete entry
      then after_get entry s (client.get entry s.cluster)
      else record s { skipped = s.skipped + 1 }

  unfoldable pub prune_loop : List InventoryEntry → PruneState C → PruneState C
  prune_loop [] s = s
  prune_loop (entry ∷ stale) s = prune_loop stale (prune_entry entry s)

-- The status that errors.As finds in a join: that of the first error that has one.
first_status : List Error → Option ApiReason
first_status [] = none
first_status (e ∷ es) = elim e.status [ some r ↦ some r | none ↦ first_status es ]

join_text : List Error → String
join_text [] = ""
join_text (e ∷ []) = e.msg
join_text (e ∷ f ∷ es) = e.msg ^^ "\n" ^^ join_text (f ∷ es)

-- errors.Join
unfoldable pub join : List Error → Option Error
unfolding first_status join_text
join [] = none
join (e ∷ es) =
    some (record { msg = join_text (e ∷ es); status = first_status (e ∷ es); sentinel = none })

-- Prune
unfoldable pub prune :
    {C : Type 0} → Client C → String → List InventoryEntry → C → PruneResult × Option Error × C
unfolding prune_loop join
prune client owner_uuid stale c =
    let s =
      prune_loop client owner_uuid stale
        (record { deleted = 0; skipped = 0; errors = []; cluster = c }) in
    (record { deleted = s.deleted; skipped = s.skipped }, join s.errors, s.cluster)
