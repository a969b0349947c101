-- ===== src/Inventory/Laws.antt =====
-- The stale set of internal/inventory/stale.go: exactly what left, whatever its version or component.
use mathlib.Core.List.Memᴰ
use mathlib.Core.List.{Memᴰ}
use poc_controller.Prelude.{
  true, false, ◌≡◌, ◌↔◌, inl, inr, List, [], ◌∷◌, arith, eq_iff, any_of, any_of-true, any_of-false,
  Bool-cases,
}
use poc_controller.Inventory.{k8s_identity_equal, compute_stale_set}
use poc_controller.Api.{InventoryEntry}

-- The apiserver's identity of an object.
abbrev pub SameObject : InventoryEntry → InventoryEntry → Type 0
SameObject a b =
    (a.group ≡ b.group) × (a.kind ≡ b.kind) × (a.namespace ≡ b.namespace) × (a.name ≡ b.name)

pub k8s_identity_equal_iff :
    (a b : InventoryEntry) → (k8s_identity_equal a b ≡ true) ↔ SameObject a b
unfolding k8s_identity_equal
k8s_identity_equal_iff a b = ground (
  arith,
  eq_iff a.group b.group,
  eq_iff a.kind b.kind,
  eq_iff a.namespace b.namespace,
  eq_iff a.name b.name,
)

-- An entry for which the scan of the current entries fails has no object in common with them.
not_current :
    (e : InventoryEntry) (current : List InventoryEntry)
    → any_of (k8s_identity_equal e) current ≡ false
    → (c : InventoryEntry) → Memᴰ c current
    → ¬ SameObject e c
not_current e current h c m same =
    cc (any_of-false (k8s_identity_equal e) current h c m, (k8s_identity_equal_iff e c).1 same)

stale_sound :
    (previous current : List InventoryEntry) (e : InventoryEntry)
    → Memᴰ e (compute_stale_set previous current)
    → Memᴰ e previous × ((c : InventoryEntry) → Memᴰ c current → ¬ SameObject e c)
unfolding compute_stale_set
stale_sound [] current e m = elim m [ ]
stale_sound (p ∷ previous) current e m = elim (Bool-cases (any_of (k8s_identity_equal p) current)) [
  | inl kept ↦ later (stale_sound previous current e (rw kept at m))
  | inr left ↦
      elim (let m' : Memᴰ e (p ∷ compute_stale_set previous current) = rw left at m in
        Memᴰ.cases_cons m') [
          | inl here ↦ (Memᴰ.head here, rw here (not_current p current left))
          | inr there ↦ later (stale_sound previous current e there)
        ]
]
  where
    later :
        Memᴰ e previous × ((c : InventoryEntry) → Memᴰ c current → ¬ SameObject e c)
        → Memᴰ e (p ∷ previous) × ((c : InventoryEntry) → Memᴰ c current → ¬ SameObject e c)
    later (m, n) = (Memᴰ.tail m, n)

stale_complete :
    (previous current : List InventoryEntry) (e : InventoryEntry)
    → Memᴰ e previous
    → ((c : InventoryEntry) → Memᴰ c current → ¬ SameObject e c)
    → Memᴰ e (compute_stale_set previous current)
unfolding compute_stale_set
stale_complete [] current e m h = elim m [ ]
stale_complete (p ∷ previous) current e (Memᴰ.head eq) h =
    elim (Bool-cases (any_of (k8s_identity_equal p) current)) [
      | inl kept ↦
          let (c, m, t) = any_of-true (k8s_identity_equal p) current kept in
          absurd (h c m (rw eq ((k8s_identity_equal_iff p c).0 t)))
      | inr left ↦ rw left (Memᴰ.head eq)
    ]
stale_complete (p ∷ previous) current e (Memᴰ.tail m) h =
    elim (Bool-cases (any_of (k8s_identity_equal p) current)) [
      | inl kept ↦ rw kept (stale_complete previous current e m h)
      | inr left ↦ rw left (Memᴰ.tail (stale_complete previous current e m h))
    ]

-- An entry is stale exactly when it was in the previous inventory and no entry of the current one
-- names the same object (group, kind, namespace and name); version and component do not matter.
pub mem-compute_stale_set :
    (previous current : List InventoryEntry) (e : InventoryEntry)
    → Memᴰ e (compute_stale_set previous current)
      ↔ (Memᴰ e previous × ((c : InventoryEntry) → Memᴰ c current → ¬ SameObject e c))
mem-compute_stale_set previous current e =
    (stale_sound previous current e, λ h. stale_complete previous current e h.0 h.1)
