-- ===== src/Status/Digests.antt =====
-- internal/status/digests.go: the digests that decide whether a reconcile has anything to do.
pub mod Laws
use poc_controller.Prelude.{
  String, Bool, false, not, ◌||◌, ◌&&◌, ◌==◌, ◌^^◌, is_empty, Option, none, some, List, [], ◌∷◌,
  Result, ok, err, wrap, if◌then◌else◌,
}
use poc_controller.Prelude.Sort.{text_lt, sort_stable}
use poc_controller.Core.{Resource, parse_api_version, marshal_json}
use poc_controller.Inventory.{Encoding}

pub record DigestSet : Type 0 where
  pub source : String
  pub config : String
  pub render : String
  pub inventory : String

-- IsNoOp
unfoldable pub is_no_op : DigestSet → DigestSet → Bool
is_no_op current last =
    if is_empty last.source
      || is_empty last.config
      || is_empty last.render
      || is_empty last.inventory
    then false
    else current.source == last.source
      && current.config == last.config
      && current.render == last.render
      && current.inventory == last.inventory

-- ModuleSourceDigest
unfoldable pub module_source_digest : Encoding → String → String → String
module_source_digest enc module_path module_version =
    "sha256:" ^^ enc.sha256_hex (module_path ^^ "@" ^^ module_version)

-- ConfigDigest; `canonical` is json.Marshal after json.Unmarshal, and `none` if either fails
unfoldable pub config_digest : Encoding → (String → Option String) → Option String → String
config_digest enc canonical none = "sha256:" ^^ enc.sha256_hex ""
config_digest enc canonical (some raw) =
    if is_empty raw then "sha256:" ^^ enc.sha256_hex "" else elim (canonical raw) [
      | none ↦ "sha256:" ^^ enc.sha256_hex raw
      | some json ↦ "sha256:" ^^ enc.sha256_hex json
    ]

-- The order in which RenderDigest sorts: group, kind, namespace, name.
unfoldable pub resource_less : Resource → Resource → Bool
resource_less a b =
    let group_a = (parse_api_version a.value.api_version).0 in
    let group_b = (parse_api_version b.value.api_version).0 in
    if not (group_a == group_b)
    then text_lt group_a group_b
    else if not (a.value.kind == b.value.kind)
    then text_lt a.value.kind b.value.kind
    else if not (a.value.namespace == b.value.namespace)
    then text_lt a.value.namespace b.value.namespace
    else text_lt a.value.name b.value.name

-- The bytes that RenderDigest hashes.
render_text : List Resource → Result String
render_text [] = ok ""
render_text (r ∷ rs) =
    let rest = render_text rs in
    elim (marshal_json r) [
      | err e ↦ err (wrap "render digest: " e)
      | ok b ↦ elim rest [ err e ↦ err e | ok bs ↦ ok (b ^^ bs) ]
    ]

-- RenderDigest
unfoldable pub render_digest : Encoding → List Resource → Result String
unfolding render_text
render_digest enc resources = elim (render_text (sort_stable resource_less resources)) [
  | err e ↦ err e
  | ok bytes ↦ ok ("sha256:" ^^ enc.sha256_hex bytes)
]
