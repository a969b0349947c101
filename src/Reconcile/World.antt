-- ===== src/Reconcile/World.antt =====
-- What the Release loop is given (ReleaseParams and the packages that it calls), what it carries, and
-- what it does to the outside, in order.
use poc_controller.Prelude.{ℕ, String, Bool, Option, List, [], ◌∷◌, ◌++◌, Error, Result}
use poc_controller.Api.{Condition, Release, InventoryEntry}
use poc_controller.Core.{Unstructured, Resource}
use poc_controller.Inventory.{Encoding}
use poc_controller.Status.Conditions.{ConditionApi}
use poc_controller.Apply.Ssa.{ResourceManager}
use poc_controller.Apply.Prune.{Client}
use poc_controller.Apply.Impersonate.{ImpersonationConfig}
use poc_controller.Source.{SourceObject, FetchOptions}

-- render.RenderResult
pub record RenderResult : Type 0 where
  pub resources : List Resource
  pub inventory_entries : List InventoryEntry
  pub warnings : List String

-- What os.Stat says of a path.
pub data FileInfo : Type 0 where
  directory regular_file missing : FileInfo
  stat_error : String → FileInfo

-- The outside of one reconcile, over the state `C` of the cluster. Each field is one call.
pub record World (C : Type 0) : Type 0 where
  pub conditions : ConditionApi
  pub encoding : Encoding
  -- fmt's %q
  pub quote : String → String
  -- Client.Get of a Release, by namespace and name
  pub get_release : String → String → Result Release
  -- Client.Get of a source object of a kind, by namespace and name
  pub get_source : String → String → String → Result SourceObject
  -- Client.Patch of the object's metadata, and SerialPatcher.Patch of its status
  pub patch_metadata : Release → Option Error
  pub patch_status : Release → Option Error
  pub mkdir_temp : Result String
  pub fetch : String → String → String → FetchOptions → Option Error
  pub stat : String → FileInfo
  -- ReleaseRenderer.Render: the kind and the result
  pub render : String → Result (String × RenderResult)
  -- readings of the clock: at the start, in the deferred commit, in the history entry, and where the
  -- next retry is computed; and time.Since(reconcileStart)
  pub start : ℕ
  pub now : ℕ
  pub history_now : ℕ
  pub retry_now : ℕ
  pub since : ℕ
  pub client : Client C
  pub resource_manager : ResourceManager C
  pub default_service_account : String
  pub has_rest_config : Bool
  -- the uncached reader's answer about a ServiceAccount, client.New, and apply.NewResourceManager
  pub read_service_account : String → String → Option Error
  pub new_client : ImpersonationConfig → Result (Client C)
  pub new_resource_manager : Client C → ResourceManager C

pub data EventType : Type 0 where
  normal warning : EventType

-- What the loop does to the outside, apart from the cluster's state. An event is its type, reason and
-- action; its note is not modelled.
pub data Call : Type 0 where
  event : EventType → String → String → Call
  patch_metadata : Release → Call
  patch_status : Release → Call
  fetch : String → String → Call
  remove_all : String → Call
  apply : List Unstructured → Bool → Call
  prune : String → List InventoryEntry → Call

pub record St (C : Type 0) : Type 0 where
  pub rel : Release
  pub cluster : C
  pub log : List Call

module _ {C : Type 0} where
  unfoldable pub call : Call → St C → St C
  call c s = record s { log = s.log ++ c ∷ [] }

  unfoldable pub set_release : Release → St C → St C
  set_release rel s = record s { rel = rel }

  -- a Mark function of internal/status, on the release in hand
  unfoldable pub mark : (List Condition → List Condition) → St C → St C
  mark f s = record s {
    rel = record (s.rel) {
      status = record (s.rel.status) { conditions = f s.rel.status.conditions };
    };
  }

-- ctrl.Result, and what Reconcile returns.
pub record ReconcileResult : Type 0 where
  pub requeue : Bool
  pub requeue_after : ℕ
