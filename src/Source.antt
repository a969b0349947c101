-- ===== src/Source.antt =====
-- internal/source/resolve.go and artifact.go: the Flux source of a release and its artifact.
pub mod Laws
pub mod Disk
pub mod Extract
pub mod Fetch
use poc_controller.Prelude.{
  ℕ, String, Bool, true, false, ◌||◌, not, ◌&&◌, Option, none, some, List, ◌==◌, ◌^^◌, is_empty,
  Error, Result, ok, err, wrap, Sentinel, source_not_found, source_not_ready,
  unsupported_source_kind, if◌then◌else◌,
}
use poc_controller.Api.{Condition, ConditionStatus, is_true, SourceReference}
use poc_controller.Status.Conditions.{ConditionApi, ready_condition}
use poc_controller.Apply.Impersonate.{is_not_found}

-- fluxmeta.Artifact, and what the interface fluxSource gives of a source object.
pub record Artifact : Type 0 where
  pub url : String
  pub revision : String
  pub digest : String

pub record SourceObject : Type 0 where
  pub conditions : List Condition
  pub artifact : Option Artifact

pub record ArtifactRef : Type 0 where
  pub kind : String
  pub url : String
  pub revision : String
  pub digest : String

abbrev pub err_source_not_found : Error
err_source_not_found = record {
  msg = "source not found";
  status = none;
  sentinel = some source_not_found;
}

abbrev pub err_source_not_ready : Error
err_source_not_ready = record {
  msg = "source not ready";
  status = none;
  sentinel = some source_not_ready;
}

abbrev pub err_unsupported_source_kind : Error
err_unsupported_source_kind = record {
  msg = "unsupported source kind";
  status = none;
  sentinel = some unsupported_source_kind;
}

-- newSourceObject; `quote` is fmt's %q
unfoldable pub new_source_object : (String → String) → String → Option Error
new_source_object quote kind =
    if kind == "OCIRepository" || kind == "GitRepository" || kind == "Bucket"
    then none
    else some (wrap ("source kind " ^^ quote kind ^^ ": ") err_unsupported_source_kind)

abbrev pub is_ready : Option Condition → Bool
is_ready none = false
is_ready (some ready) = elim ready.status [ is_true ↦ true | _ ↦ false ]

-- the part of Resolve after the look-up
check_source : ConditionApi → String → SourceReference → SourceObject → Result ArtifactRef
check_source api place ref obj =
    if not (is_ready (api.find ready_condition obj.conditions))
    then err (wrap (ref.kind ^^ " " ^^ place ^^ ": ") err_source_not_ready)
    else elim obj.artifact [
      | none ↦ err (wrap (ref.kind ^^ " " ^^ place ^^ " has no artifact: ") err_source_not_ready)
      | some a ↦
          ok (record { kind = ref.kind; url = a.url; revision = a.revision; digest = a.digest })
    ]

-- the part of Resolve after newSourceObject
look_up_source :
    ConditionApi
    → (String → String → String → Result SourceObject)
    → String
    → SourceReference
    → Result ArtifactRef
unfolding check_source
look_up_source api get ns ref =
    let place = ns ^^ "/" ^^ ref.name in
    elim (get ref.kind ns ref.name) [
      | err e ↦
          if is_not_found e
          then err (wrap (ref.kind ^^ " " ^^ place ^^ ": ") err_source_not_found)
          else err (wrap ("getting " ^^ ref.kind ^^ " " ^^ place ^^ ": ") e)
      | ok obj ↦ check_source api place ref obj
    ]

-- The namespace in which a source reference is looked up.
abbrev pub source_namespace : SourceReference → String → String
source_namespace ref release_namespace =
    if is_empty ref.namespace then release_namespace else ref.namespace

-- Resolve; `get` is the client's Get of a source object of a kind, in a namespace, by name
unfoldable pub resolve :
    ConditionApi
    → (String → String)
    → (String → String → String → Result SourceObject)
    → SourceReference
    → String
    → Result ArtifactRef
unfolding look_up_source new_source_object
resolve api quote get ref release_namespace =
    let ns = source_namespace ref release_namespace in
    elim (new_source_object quote ref.kind) [
      | some e ↦ err (wrap (ns ^^ "/" ^^ ref.name ^^ ": ") e)
      | none ↦ look_up_source api get ns ref
    ]

-- errors.Is of Resolve's errors against ErrSourceNotFound and ErrUnsupportedSourceKind.
unfoldable pub is_permanent_source_error : Error → Bool
is_permanent_source_error e = elim e.sentinel [
  | some source_not_found ↦ true
  | some unsupported_source_kind ↦ true
  | _ ↦ false
]

pub data ArchiveFormat : Type 0 where
  zip tar_gz : ArchiveFormat
  -- another number
  other_format : ℕ → ArchiveFormat

pub record FetchOptions : Type 0 where
  pub format : ArchiveFormat
  pub skip_root_cue_module_validation : Bool

-- FormatForKind
unfoldable pub format_for_kind : String → ArchiveFormat
format_for_kind _ = tar_gz
