-- ===== src/Inventory/Order.antt =====
-- ComputeDigest of internal/inventory/digest.go and the order of the entries.
use mathlib.Core.List.{Permᴰ}
use mathlib.Core.List.Permᴰ
use poc_controller.Prelude.{String, ◌≡◌, refl, ap, some, none, List, [], ◌∷◌, ◌^^◌}
use poc_controller.Prelude.Sort.Order.{IsOrder}
use poc_controller.Prelude.Sort.Keys.{by_text, by_text_then, sort_stable-perm}
use poc_controller.Api.{InventoryEntry}
use poc_controller.Inventory.{Encoding, entry_less, compute_digest}

-- The fields of an entry in the order in which they are compared.
abbrev entry_key : InventoryEntry → String × (String × (String × (String × (String × String))))
entry_key e = (e.group, (e.kind, (e.namespace, (e.name, (e.component, e.version)))))

entry_less-IsOrder : IsOrder entry_less entry_key
unfolding entry_less
entry_less-IsOrder =
    by_text_then (λ e. e.group)
      (by_text_then (λ e. e.kind)
        (by_text_then (λ e. e.namespace)
          (by_text_then (λ e. e.name)
            (by_text_then (λ e. e.component) (by_text (λ e. e.version))))))

entry_key_injective : (a b : InventoryEntry) → entry_key a ≡ entry_key b → a ≡ b
entry_key_injective a b h =
    ap
      (λ (k : String × (String × (String × (String × (String × String))))). record {
        group = k.0;
        kind = k.1.0;
        namespace = k.1.1.0;
        name = k.1.1.1.0;
        component = k.1.1.1.1.0;
        version = k.1.1.1.1.1;
      })
      h

module _ (enc : Encoding) where
  -- The digest as a function of the sorted entries.
  digest_sorted : List InventoryEntry → String
  digest_sorted sorted = elim (enc.marshal_entries sorted) [
    | some b ↦ "sha256:" ^^ enc.sha256_hex b
    | none ↦ "sha256:" ^^ enc.sha256_hex (enc.print_entries sorted)
  ]

  -- ComputeDigest gives the same digest for the same entries in any order.
  pub compute_digest-perm :
      {entries entries' : List InventoryEntry}
      → Permᴰ entries entries'
      → compute_digest enc entries ≡ compute_digest enc entries'
  unfolding compute_digest digest_sorted
  compute_digest-perm {entries = []} {entries' = []} p = refl
  compute_digest-perm {entries = e ∷ es} {entries' = f ∷ fs} p =
      ap digest_sorted (sort_stable-perm entry_less-IsOrder entry_key_injective p)
  compute_digest-perm {entries = []} {entries' = f ∷ fs} p = cc (Permᴰ.length-eq p)
  compute_digest-perm {entries = e ∷ es} {entries' = []} p = cc (Permᴰ.length-eq p)
