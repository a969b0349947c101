-- ===== src/Reconcile/Module/World.antt =====
-- What the ModuleRelease loop of internal/reconcile/modulerelease.go is given (ModuleReleaseParams and
-- the packages that it calls), what it carries, and what it does to the outside, in order.
use poc_controller.Prelude.{ℕ, String, Bool, Option, List, [], ◌∷◌, ◌++◌, Error, Result}
use poc_controller.Api.{Condition, InventoryEntry, ModuleRelease, ModuleReference}
use poc_controller.Core.{Unstructured}
use poc_controller.Inventory.{Encoding}
use poc_controller.Status.Conditions.{ConditionApi}
use poc_controller.Apply.Ssa.{ResourceManager}
use poc_controller.Apply.Prune.{Client}
use poc_controller.Apply.Impersonate.{ImpersonationConfig}
use poc_controller.Reconcile.World.{RenderResult, EventType}

-- The outside of one reconcile, over the state `C` of the cluster. Each field is one call.
pub record ModuleWorld (C : Type 0) : Type 0 where
  pub conditions : ConditionApi
  pub encoding : Encoding
  -- json.Marshal after json.Unmarshal, `none` if either fails
  pub canonical : String → Option String
  -- fmt's %q
  pub quote : String → String
  -- Client.Get of a ModuleRelease, by namespace and name
  pub get_module_release : String → String → Result ModuleRelease
  -- Client.Patch of the object's metadata, and SerialPatcher.Patch of its status
  pub patch_metadata : ModuleRelease → Option Error
  pub patch_status : ModuleRelease → Option Error
  -- ModuleRenderer.RenderModule, by name, namespace, module and values
  pub render_module : String → String → ModuleReference → Option String → Result RenderResult
  -- readings of the clock: in the deferred commit, in the history entry, and where the next retry is
  -- computed; and time.Since(reconcileStart)
  pub now : ℕ
  pub history_now : ℕ
  pub retry_now : ℕ
  pub since : ℕ
  pub client : Client C
  pub resource_manager : ResourceManager C
  pub default_service_account : String
  pub has_rest_config : Bool
  -- the uncached reader's answer about a ServiceAccount, client.New, and apply.NewResourceManager
  pub read_service_account : String → String → Option Error
  pub new_client : ImpersonationConfig → Result (Client C)
  pub new_resource_manager : Client C → ResourceManager C

-- What the loop does to the outside, apart from the cluster's state. An event is its type, reason and
-- action; its note is not modelled.
pub data Effect : Type 0 where
  event : EventType → String → String → Effect
  patch_metadata patch_status : ModuleRelease → Effect
  apply : List Unstructured → Bool → Effect
  prune : String → List InventoryEntry → Effect

pub record ModuleState (C : Type 0) : Type 0 where
  pub mr : ModuleRelease
  pub cluster : C
  pub log : List Effect

module _ {C : Type 0} where
  unfoldable pub emit : Effect → ModuleState C → ModuleState C
  emit e s = record s { log = s.log ++ e ∷ [] }

  -- a Mark function of internal/status, on the release in hand
  unfoldable pub annotate : (List Condition → List Condition) → ModuleState C → ModuleState C
  annotate f s = record s {
    mr = record (s.mr) { status = record (s.mr.status) { conditions = f s.mr.status.conditions } };
  }
