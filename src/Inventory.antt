-- ===== src/Inventory.antt =====
-- internal/inventory: entries, the stale set and the inventory digest.
pub mod Laws
pub mod Order
use poc_controller.Prelude.{
  String, Bool, not, ◌&&◌, Option, none, some, List, [], ◌∷◌, ◌==◌, ◌^^◌, any_of, if◌then◌else◌,
}
use poc_controller.Prelude.Sort.{text_lt, sort_stable}
use poc_controller.Core.{Unstructured, read_label, label_component_name}
use poc_controller.Api.{InventoryEntry}

-- NewEntryFromResource
unfoldable pub new_entry_from_resource : Unstructured → InventoryEntry
new_entry_from_resource r = record {
  group = r.group;
  kind = r.kind;
  namespace = r.namespace;
  name = r.name;
  version = r.version;
  component = read_label label_component_name r.labels;
}

-- IdentityEqual
unfoldable pub identity_equal : InventoryEntry → InventoryEntry → Bool
identity_equal a b =
    a.group == b.group
    && a.kind == b.kind
    && a.namespace == b.namespace
    && a.name == b.name
    && a.component == b.component

-- K8sIdentityEqual
unfoldable pub k8s_identity_equal : InventoryEntry → InventoryEntry → Bool
k8s_identity_equal a b =
    a.group == b.group && a.kind == b.kind && a.namespace == b.namespace && a.name == b.name

-- ComputeStaleSet; the inner loop is `any_of`
unfoldable pub compute_stale_set : List InventoryEntry → List InventoryEntry → List InventoryEntry
compute_stale_set [] current = []
compute_stale_set (prev ∷ previous) current =
    let stale = compute_stale_set previous current in
    if any_of (k8s_identity_equal prev) current then stale else prev ∷ stale

-- The order in which ComputeDigest sorts.
unfoldable pub entry_less : InventoryEntry → InventoryEntry → Bool
entry_less a b =
    if not (a.group == b.group)
    then text_lt a.group b.group
    else if not (a.kind == b.kind)
    then text_lt a.kind b.kind
    else if not (a.namespace == b.namespace)
    then text_lt a.namespace b.namespace
    else if not (a.name == b.name)
    then text_lt a.name b.name
    else if not (a.component == b.component)
    then text_lt a.component b.component
    else text_lt a.version b.version

-- crypto/sha256 in hexadecimal, encoding/json and fmt's %v on the entries.
pub record Encoding : Type 0 where
  pub sha256_hex : String → String
  pub marshal_entries : List InventoryEntry → Option String
  pub print_entries : List InventoryEntry → String

-- ComputeDigest
unfoldable pub compute_digest : Encoding → List InventoryEntry → String
compute_digest enc [] = "sha256:" ^^ enc.sha256_hex ""
compute_digest enc (e ∷ entries) =
    let sorted = sort_stable entry_less (e ∷ entries) in
    elim (enc.marshal_entries sorted) [
      | some b ↦ "sha256:" ^^ enc.sha256_hex b
      | none ↦ "sha256:" ^^ enc.sha256_hex (enc.print_entries sorted)
    ]
