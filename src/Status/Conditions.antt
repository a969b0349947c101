-- ===== src/Status/Conditions.antt =====
-- internal/status/conditions.go over the condition operations of fluxcd/pkg/runtime/conditions and
-- FindStatusCondition of apimachinery, which are the interface `ConditionApi`.
pub mod Laws
pub mod Memory
use poc_controller.Prelude.{String, ◌≡◌, Option, none, some, List, ◌==◌, if◌then◌else◌, ◌^^◌}
use poc_controller.Api.{Condition, ConditionStatus, is_true, is_false, is_unknown}

abbrev pub ready_condition : String
ready_condition = "Ready"

abbrev pub reconciling_condition : String
reconciling_condition = "Reconciling"

abbrev pub stalled_condition : String
stalled_condition = "Stalled"

abbrev pub module_resolved_condition : String
module_resolved_condition = "ModuleResolved"

abbrev pub drifted_condition : String
drifted_condition = "Drifted"

abbrev pub condition : String → ConditionStatus → String → String → Condition
condition type status reason message = record {
  type = type;
  status = status;
  reason = reason;
  message = message;
}

-- The operations that the code calls, each with what a later look-up finds.
pub record ConditionApi : Type 0 where
  pub find : String → List Condition → Option Condition
  pub delete : String → List Condition → List Condition
  pub mark : ConditionStatus → String → String → String → List Condition → List Condition
  pub mark_reconciling : String → String → List Condition → List Condition
  pub mark_stalled : String → String → List Condition → List Condition
  pub find-delete :
      (k t : String) (cs : List Condition)
      → find k (delete t cs) ≡ (if t == k then none else find k cs)
  pub find-mark :
      (k : String) (s : ConditionStatus) (t r m : String) (cs : List Condition)
      → find k (mark s t r m cs) ≡ (if t == k then some (condition t s r m) else find k cs)
  pub find-mark_reconciling :
      (k r m : String) (cs : List Condition)
      → find k (mark_reconciling r m cs) ≡ (
          if reconciling_condition == k
          then some (condition reconciling_condition is_true r m)
          else if stalled_condition == k
          then none
          else find k cs)
  pub find-mark_stalled :
      (k r m : String) (cs : List Condition)
      → find k (mark_stalled r m cs) ≡ (
          if stalled_condition == k
          then some (condition stalled_condition is_true r m)
          else if reconciling_condition == k
          then none
          else find k cs)

module _ (api : ConditionApi) where
  -- MarkReconciling
  unfoldable pub mark_reconciling : String → String → List Condition → List Condition
  mark_reconciling reason message cs =
      api.mark is_unknown ready_condition reason message (api.mark_reconciling reason message cs)

  -- MarkStalled
  unfoldable pub mark_stalled : String → String → List Condition → List Condition
  mark_stalled reason message cs =
      api.mark is_false ready_condition reason message (api.mark_stalled reason message cs)

  -- MarkReady
  unfoldable pub mark_ready : String → List Condition → List Condition
  mark_ready message cs =
      api.mark is_true ready_condition "ReconciliationSucceeded" message
        (api.delete stalled_condition (api.delete reconciling_condition cs))

  -- MarkSuspended
  unfoldable pub mark_suspended : List Condition → List Condition
  mark_suspended cs =
      api.mark is_false ready_condition "Suspended" "Reconciliation is suspended"
        (api.delete stalled_condition (api.delete reconciling_condition cs))

  -- MarkNotReady
  unfoldable pub mark_not_ready : String → String → List Condition → List Condition
  mark_not_ready reason message cs = api.mark is_false ready_condition reason message cs

  -- MarkDrifted; `message` is the formatted count
  unfoldable pub mark_drifted : String → List Condition → List Condition
  mark_drifted count cs =
      api.mark is_true drifted_condition "DriftDetected"
        (count ^^ " resource(s) drifted from desired state") cs

  -- ClearDrifted
  unfoldable pub clear_drifted : List Condition → List Condition
  clear_drifted cs = api.delete drifted_condition cs

  -- MarkModuleResolved
  unfoldable pub mark_module_resolved : String → List Condition → List Condition
  mark_module_resolved module_ref cs =
      api.mark is_true module_resolved_condition "ModuleResolved"
        ("module resolved: " ^^ module_ref) cs
