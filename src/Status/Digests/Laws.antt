-- ===== src/Status/Digests/Laws.antt =====
-- IsNoOp of internal/status/digests.go against its meaning.
use poc_controller.Prelude.{
  String, Option, Bool-cases, some, none, List, [], ◌∷◌, ok, refl, subst, inl, inr, false, is_empty,
  is_empty_left, eq_refl, Option-cases, Result-cases, ◌≡◌, ◌≢◌, ◌↔◌, true, arith, eq_iff,
}
use poc_controller.Prelude.Sort.{sort_stable}
use poc_controller.Core.{Resource}
use poc_controller.Inventory.{Encoding, compute_digest, entry_less}
use poc_controller.Api.{InventoryEntry}
use poc_controller.Status.Digests.{
  DigestSet, is_no_op, module_source_digest, config_digest, resource_less, render_text,
  render_digest,
}

-- A reconcile is a no-op exactly when the digests are those last applied and none of them is empty.
pub is_no_op_iff :
    (current last : DigestSet)
    → (is_no_op current last ≡ true) ↔ (
        (current ≡ last)
        × (last.source ≢ "")
        × (last.config ≢ "")
        × (last.render ≢ "")
        × (last.inventory ≢ ""))
unfolding is_no_op
is_no_op_iff current last = ground (
  arith,
  eq_iff last.source "",
  eq_iff last.config "",
  eq_iff last.render "",
  eq_iff last.inventory "",
  eq_iff current.source last.source,
  eq_iff current.config last.config,
  eq_iff current.render last.render,
  eq_iff current.inventory last.inventory,
)

-- Every digest starts with the name of its algorithm.
pub compute_digest_set :
    (enc : Encoding) (entries : List InventoryEntry) → is_empty (compute_digest enc entries) ≡ false
unfolding compute_digest
compute_digest_set enc [] = is_empty_left "sha256:" (enc.sha256_hex "") refl
compute_digest_set enc (e ∷ es) =
    elim (Option-cases (enc.marshal_entries (sort_stable entry_less (e ∷ es)))) [
      | inl x ↦ rw (x, compute_digest) (is_empty_left "sha256:" _ refl)
      | inr (b, x) ↦ rw (x, compute_digest) (is_empty_left "sha256:" _ refl)
    ]

pub config_digest_set :
    (enc : Encoding) (canonical : String → Option String) (values : Option String)
    → is_empty (config_digest enc canonical values) ≡ false
unfolding config_digest
config_digest_set enc canonical none = is_empty_left "sha256:" (enc.sha256_hex "") refl
config_digest_set enc canonical (some raw) = elim (Bool-cases (is_empty raw)) [
  | inl t ↦ rw (t, config_digest) (is_empty_left "sha256:" (enc.sha256_hex "") refl)
  | inr f ↦ elim (Option-cases (canonical raw)) [
    | inl e ↦ rw (f, e, config_digest) (is_empty_left "sha256:" (enc.sha256_hex raw) refl)
    | inr (json, e) ↦ rw (f, e, config_digest) (is_empty_left "sha256:" (enc.sha256_hex json) refl)
  ]
]

pub module_source_digest_set :
    (enc : Encoding) (path version : String)
    → is_empty (module_source_digest enc path version) ≡ false
unfolding module_source_digest
module_source_digest_set enc path version = is_empty_left "sha256:" _ refl

pub render_digest_set :
    (enc : Encoding) (resources : List Resource) (digest : String)
    → render_digest enc resources ≡ ok digest
    → is_empty digest ≡ false
unfolding render_digest
render_digest_set enc resources digest h =
    elim (Result-cases (render_text (sort_stable resource_less resources))) [
      | inl (bytes, e) ↦
          subst (λ d. is_empty d ≡ false) (ground (arith, h, e))
            (is_empty_left "sha256:" (enc.sha256_hex bytes) refl)
      | inr (x, e) ↦ absurd (ground (arith, h, e))
    ]

pub is_no_op_self :
    (d : DigestSet)
    → is_empty d.source ≡ false
    → is_empty d.config ≡ false
    → is_empty d.render ≡ false
    → is_empty d.inventory ≡ false
    → is_no_op d d ≡ true
unfolding is_no_op
is_no_op_self d set config render inventory = ground (
  arith,
  set,
  config,
  render,
  inventory,
  eq_refl d.source,
  eq_refl d.config,
  eq_refl d.render,
  eq_refl d.inventory,
)
