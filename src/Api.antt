-- ===== src/Api.antt =====
-- api/v1alpha1: the types of the custom resources that the reconcilers read and write.
-- A time or a duration is its number of nanoseconds; an int64 is its bit pattern; a pointer or an
-- optional field is an `Option`; an empty string is the empty text, as in Go.
use poc_controller.Prelude.{ℕ, String, Bool, Option, List}

-- InventoryEntry identifies one owned Kubernetes resource.
pub record InventoryEntry : Type 0 where
  pub group : String
  pub kind : String
  pub namespace : String
  pub name : String
  pub version : String
  pub component : String

pub record Inventory : Type 0 where
  pub revision : ℕ
  pub digest : String
  pub count : ℕ
  pub entries : List InventoryEntry

pub record HistoryEntry : Type 0 where
  pub sequence : ℕ
  pub action : String
  pub phase : String
  pub started_at : Option ℕ
  pub finished_at : Option ℕ
  pub source_digest : String
  pub config_digest : String
  pub render_digest : String
  pub inventory_digest : String
  pub inventory_count : ℕ
  pub message : String

pub record FailureCounters : Type 0 where
  pub reconcile : ℕ
  pub apply : ℕ
  pub prune : ℕ
  pub drift : ℕ

-- metav1.Condition and its status.
pub data ConditionStatus : Type 0 where
  is_true is_false is_unknown : ConditionStatus

pub record Condition : Type 0 where
  pub type : String
  pub status : ConditionStatus
  pub reason : String
  pub message : String

-- fluxmeta.NamespacedObjectKindReference and NamespacedObjectReference.
pub record SourceReference : Type 0 where
  pub kind : String
  pub name : String
  pub namespace : String

pub record DependencyReference : Type 0 where
  pub name : String
  pub namespace : String

pub record SourceStatus : Type 0 where
  pub ref : SourceReference
  pub artifact_revision : String
  pub artifact_digest : String
  pub artifact_url : String

pub record RolloutSpec : Type 0 where
  pub strategy : String
  pub force_conflicts : Bool

pub record ReleaseSpec : Type 0 where
  pub source_ref : SourceReference
  pub path : String
  pub interval : ℕ
  pub prune : Bool
  pub suspend : Bool
  pub depends_on : List DependencyReference
  pub service_account_name : String
  pub rollout : Option RolloutSpec

pub record ReleaseStatus : Type 0 where
  pub observed_generation : ℕ
  pub conditions : List Condition
  pub source : Option SourceStatus
  pub last_attempted_action : String
  pub last_attempted_at : Option ℕ
  pub last_attempted_duration : Option ℕ
  pub last_attempted_source_digest : String
  pub last_attempted_config_digest : String
  pub last_attempted_render_digest : String
  pub last_applied_at : Option ℕ
  pub last_applied_source_digest : String
  pub last_applied_config_digest : String
  pub last_applied_render_digest : String
  pub failure_counters : Option FailureCounters
  pub inventory : Option Inventory
  pub history : List HistoryEntry
  pub next_retry_at : Option ℕ

-- The object metadata that the code reads or writes.
pub record ObjectMeta : Type 0 where
  pub name : String
  pub namespace : String
  pub generation : ℕ
  pub deletion_timestamp : Option ℕ
  pub finalizers : List String
  pub annotations : List (String × String)

pub record Release : Type 0 where
  pub metadata : ObjectMeta
  pub spec : ReleaseSpec
  pub status : ReleaseStatus

pub record ModuleReference : Type 0 where
  pub path : String
  pub version : String

-- The values are their JSON text, `none` where they are missing.
pub record ModuleReleaseSpec : Type 0 where
  pub suspend : Bool
  pub module_ref : ModuleReference
  pub values : Option String
  pub prune : Bool
  pub service_account_name : String
  pub rollout : Option RolloutSpec

pub record ModuleReleaseStatus : Type 0 where
  pub observed_generation : ℕ
  pub release_uuid : String
  pub conditions : List Condition
  pub last_attempted_action : String
  pub last_attempted_at : Option ℕ
  pub last_attempted_duration : Option ℕ
  pub last_attempted_source_digest : String
  pub last_attempted_config_digest : String
  pub last_attempted_render_digest : String
  pub last_applied_at : Option ℕ
  pub last_applied_source_digest : String
  pub last_applied_config_digest : String
  pub last_applied_render_digest : String
  pub failure_counters : Option FailureCounters
  pub inventory : Option Inventory
  pub history : List HistoryEntry
  pub next_retry_at : Option ℕ

pub record ModuleRelease : Type 0 where
  pub metadata : ObjectMeta
  pub spec : ModuleReleaseSpec
  pub status : ModuleReleaseStatus
