-- ===== src/Core.antt =====
-- pkg/core: the labels of managed resources and the rendered resource.
use Prim.Native.Char.{code}
use poc_controller.Prelude.{
  String, Bool, ◌||◌, Option, none, some, List, [], ◌∷◌, ◌==◌, ◌^^◌, eqb, is_empty, Error, Result,
  ok, err, wrap, if◌then◌else◌, refl, ◌≡◌,
}

abbrev pub label_managed_by : String
label_managed_by = "app.kubernetes.io/managed-by"

abbrev pub label_managed_by_value : String
label_managed_by_value = "opm-cli"

abbrev pub label_managed_by_controller_value : String
label_managed_by_controller_value = "opm-controller"

abbrev pub label_managed_by_legacy_value : String
label_managed_by_legacy_value = "open-platform-model"

abbrev pub label_component_name : String
label_component_name = "component.opmodel.dev/name"

abbrev pub label_module_release_uuid : String
label_module_release_uuid = "module-release.opmodel.dev/uuid"

-- IsOPMManagedBy
unfoldable pub is_opm_managed_by : String → Bool
is_opm_managed_by value =
    value == label_managed_by_value
    || value == label_managed_by_controller_value
    || value == label_managed_by_legacy_value

-- m[key] on a map of texts: the empty text if the key is missing.
unfoldable pub read_label : String → List (String × String) → String
read_label key [] = ""
read_label key ((k, v) ∷ m) = if k == key then v else read_label key m

-- What the accessors of an unstructured.Unstructured return.
pub record Unstructured : Type 0 where
  pub group : String
  pub version : String
  pub kind : String
  pub namespace : String
  pub name : String
  pub labels : List (String × String)

-- What CUE answers about a rendered value: its look-ups of a text (empty where they fail), its error,
-- its JSON, and the object that encoding/json reads from that JSON.
pub record CueValue : Type 0 where
  pub kind : String
  pub name : String
  pub namespace : String
  pub api_version : String
  pub error : Option Error
  pub json : Result String
  pub object : Result Unstructured

pub record Resource : Type 0 where
  pub value : CueValue
  pub release : String
  pub component : String
  pub transformer : String

-- The text before and after the last slash.
split_last_slash : String → Option (String × String)
split_last_slash String.[] = none
split_last_slash (String.◌∷◌ c s) = elim (split_last_slash s) [
  | some (g, v) ↦ some (String.◌∷◌ c g, v)
  | none ↦ if eqb (code c) b'/' then some ("", s) else none
]

-- parseAPIVersion
unfoldable pub parse_api_version : String → String × String
unfolding split_last_slash
parse_api_version api_version = elim (split_last_slash api_version) [
  | some p ↦ p
  | none ↦ ("", api_version)
]

parse_api_version_test : parse_api_version "apps/v1" ≡ ("apps", "v1")
unfolding parse_api_version
parse_api_version_test = refl

-- Resource.String
unfoldable pub resource_string : Resource → String
resource_string r =
    if is_empty r.value.namespace
    then r.value.kind ^^ "/" ^^ r.value.name
    else r.value.kind ^^ "/" ^^ r.value.namespace ^^ "/" ^^ r.value.name

-- Resource.MarshalJSON
unfoldable pub marshal_json : Resource → Result String
unfolding resource_string
marshal_json r = elim r.value.error [
  | some e ↦ err (wrap ("resource " ^^ resource_string r ^^ ": cue value error: ") e)
  | none ↦ elim r.value.json [
    | err e ↦ err (wrap ("resource " ^^ resource_string r ^^ ": marshal json: ") e)
    | ok b ↦ ok b
  ]
]

-- Resource.ToUnstructured
unfoldable pub to_unstructured : Resource → Result Unstructured
unfolding marshal_json
to_unstructured r = elim (marshal_json r) [
  | err e ↦ err e
  | ok b ↦ elim r.value.object [
    | err e ↦ err (wrap ("resource " ^^ resource_string r ^^ ": unmarshal to map: ") e)
    | ok obj ↦ ok obj
  ]
]
