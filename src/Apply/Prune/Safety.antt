-- ===== src/Apply/Prune/Safety.antt =====
-- What internal/apply/prune.go deletes: only stale objects that the guards let through.
use mathlib.Core.List.{Memᴰ}
use poc_controller.Prelude.{
  String, true, ◌≡◌, ◌≢◌, ◌↔◌, ◌⊎◌, inl, inr, refl, Option, none, some, List, [], ◌∷◌, arith,
  eq_iff, Bool-cases, Result-cases, Error, ok,
}
use poc_controller.Api.{InventoryEntry}
use poc_controller.Core.{
  Unstructured, read_label, is_opm_managed_by, label_managed_by, label_module_release_uuid,
}
use poc_controller.Apply.Prune.{
  PruneState, Client, is_safe_to_delete, is_owned, after_delete, prune_entry, prune_loop, prune,
}

-- The live object's manager is one of the three values of OPM.
abbrev pub IsManaged : Unstructured → Type 0
IsManaged live =
    let manager = read_label label_managed_by live.labels in
    (manager ≡ "opm-cli") ⊎ ((manager ≡ "opm-controller") ⊎ (manager ≡ "open-platform-model"))

-- The live object's release is the owner's, where both are known.
abbrev pub HasOwner : String → Unstructured → Type 0
HasOwner owner_uuid live =
    let live_uuid = read_label label_module_release_uuid live.labels in
    (owner_uuid ≡ "") ⊎ ((live_uuid ≡ "") ⊎ (live_uuid ≡ owner_uuid))

pub is_owned_iff :
    (owner_uuid : String) (live : Unstructured)
    → (is_owned owner_uuid live ≡ true) ↔ (IsManaged live × HasOwner owner_uuid live)
unfolding is_owned is_opm_managed_by
is_owned_iff owner_uuid live =
    let manager = read_label label_managed_by live.labels in
    let live_uuid = read_label label_module_release_uuid live.labels in
    ground (
      arith,
      eq_iff manager "opm-cli",
      eq_iff manager "opm-controller",
      eq_iff manager "open-platform-model",
      eq_iff owner_uuid "",
      eq_iff live_uuid "",
      eq_iff live_uuid owner_uuid,
    )

pub is_safe_to_delete_iff :
    (e : InventoryEntry)
    → (is_safe_to_delete e ≡ true)
      ↔ ((e.kind ≢ "Namespace") × (e.kind ≢ "CustomResourceDefinition"))
unfolding is_safe_to_delete
is_safe_to_delete_iff e =
    ground (arith, eq_iff e.kind "Namespace", eq_iff e.kind "CustomResourceDefinition")

module _ {C : Type 0} (client : Client C) (owner_uuid : String) where
  -- One permitted deletion: of the live object of a stale entry, whose kind is not protected, which
  -- is managed by OPM, and whose release label is missing or the owner's, or whose owner was not given.
  pub record Permitted (stale : List InventoryEntry) (before after : C) : Type 0 where
    pub entry : InventoryEntry
    pub live : Unstructured
    pub is_stale : Memᴰ entry stale
    pub not_namespace : entry.kind ≢ "Namespace"
    pub not_definition : entry.kind ≢ "CustomResourceDefinition"
    pub found : client.get entry before ≡ ok live
    pub is_managed : IsManaged live
    pub has_owner : HasOwner owner_uuid live
    pub deletes : after ≡ (client.delete live before).1

  -- A run of permitted deletions.
  pub data Deletions (stale : List InventoryEntry) (start : C) : C → Type 0 where
    done : Deletions stale start start
    next :
        {before after : C}
        → Deletions stale start before
        → Permitted stale before after
        → Deletions stale start after

  pub after_delete-cluster :
      (e : InventoryEntry) (s : PruneState C) (r : Option Error × C)
      → (after_delete client owner_uuid e s r).cluster ≡ r.1
  unfolding after_delete
  after_delete-cluster e s (none, c) = refl
  after_delete-cluster e s (some x, c) = ground arith

  -- One round leaves the cluster alone, or makes one deletion.
  pub prune_entry-cluster :
      (e : InventoryEntry) (s : PruneState C)
      → ((prune_entry client owner_uuid e s).cluster ≡ s.cluster)
        ⊎ ((live : Unstructured) × (is_safe_to_delete e ≡ true)
            × (client.get e s.cluster ≡ ok live)
            × (is_owned owner_uuid live ≡ true)
            × (prune_entry client owner_uuid e s
                ≡ after_delete client owner_uuid e s (client.delete live s.cluster)))
  unfolding prune_entry
  prune_entry-cluster e s = elim (Bool-cases (is_safe_to_delete e)) [
    | inr unsafe ↦ inl (rw unsafe)
    | inl safe ↦ elim (Result-cases (client.get e s.cluster)) [
      | inr (x, missing) ↦ inl (rw (safe, missing) (ground arith))
      | inl (live, found) ↦ elim (Bool-cases (is_owned owner_uuid live)) [
        | inr other ↦ inl (rw (safe, found, other))
        | inl own ↦ inr (live, safe, found, own, rw (safe, found, own))
      ]
    ]
  ]

  prune_entry-cases :
      (e : InventoryEntry) (stale : List InventoryEntry) (s : PruneState C)
      → Memᴰ e stale
      → ((prune_entry client owner_uuid e s).cluster ≡ s.cluster)
        ⊎ Permitted stale s.cluster (prune_entry client owner_uuid e s).cluster
  prune_entry-cases e stale s m = elim (prune_entry-cluster e s) [
    | inl same ↦ inl same
    | inr (live, safe, found, own, eq) ↦ inr (record {
      entry = e;
      live = live;
      is_stale = m;
      not_namespace = ((is_safe_to_delete_iff e).0 safe).0;
      not_definition = ((is_safe_to_delete_iff e).0 safe).1;
      found = found;
      is_managed = ((is_owned_iff owner_uuid live).0 own).0;
      has_owner = ((is_owned_iff owner_uuid live).0 own).1;
      deletes = rw eq (after_delete-cluster e s (client.delete live s.cluster));
    })
  ]

  prune_loop-Deletions :
      (todo stale : List InventoryEntry) (start : C) (s : PruneState C)
      → ((e : InventoryEntry) → Memᴰ e todo → Memᴰ e stale)
      → Deletions stale start s.cluster
      → Deletions stale start (prune_loop client owner_uuid todo s).cluster
  unfolding prune_loop
  prune_loop-Deletions [] stale start s sub d = d
  prune_loop-Deletions (e ∷ todo) stale start s sub d =
      prune_loop-Deletions todo stale start (prune_entry client owner_uuid e s)
        (λ f m. sub f (Memᴰ.tail m))
        (elim (prune_entry-cases e stale s (sub e (Memᴰ.head refl))) [
          | inl same ↦ rw same d
          | inr p ↦ next d p
        ])

  -- Whatever the apiserver answers, the cluster after Prune is the cluster before it but for a run of
  -- deletions, each of the live object of an entry of the stale set, never of a Namespace or a
  -- CustomResourceDefinition, and only of an object that is managed by OPM and whose release label is
  -- missing or the owner's, if Prune is given an owner. If it is given none, as by the Release loop, the
  -- release label may be any.
  pub prune-Deletions :
      (stale : List InventoryEntry) (c : C) → Deletions stale c (prune client owner_uuid stale c).2
  unfolding prune
  prune-Deletions stale c =
      prune_loop-Deletions stale stale c
        (record { deleted = 0; skipped = 0; errors = []; cluster = c }) (λ e m. m) done
