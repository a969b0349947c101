-- ===== src/Reconcile/Verdict.antt =====
-- The three conditions that tell of a reconcile, Ready, Stalled and Reconciling, as a state machine
-- that the Mark functions of internal/status/conditions.go step.
use poc_controller.Prelude.{◌≡◌, refl, ap, ◌∙◌, Option, none, some, List, [], ◌∷◌}
use poc_controller.Api.{Condition, ConditionStatus, is_true, is_false, is_unknown}
use poc_controller.Status.Conditions.{
  ConditionApi, ready_condition, stalled_condition, reconciling_condition, mark_ready,
  mark_reconciling, mark_stalled, mark_not_ready, mark_drifted, clear_drifted, mark_module_resolved,
  mark_suspended,
}
use poc_controller.Status.Conditions.Laws.{
  MarkCall, reconciling, stalled, not_ready, ready, drifted, module_resolved, suspended, undrifted,
  run_mark, run_marks,
}
use poc_controller.Reconcile.Outcome.{
  Outcome, no_op, applied, applied_and_pruned, failed_transient, failed_stalled,
}

-- The status of a condition, where there is one.
abbrev status_of : Option Condition → Option ConditionStatus
status_of none = none
status_of (some c) = some c.status

-- The statuses of Ready, Stalled and Reconciling that an outcome stands for.
abbrev pub expected_verdict :
    Outcome → Option ConditionStatus × Option ConditionStatus × Option ConditionStatus
expected_verdict no_op = (some is_true, none, none)
expected_verdict applied = (some is_true, none, none)
expected_verdict applied_and_pruned = (some is_true, none, none)
expected_verdict failed_stalled = (some is_false, some is_true, none)
expected_verdict failed_transient = (some is_false, none, some is_true)

-- What a Mark call makes of the three statuses.
abbrev pub step_verdict :
    MarkCall
    → Option ConditionStatus × Option ConditionStatus × Option ConditionStatus
    → Option ConditionStatus × Option ConditionStatus × Option ConditionStatus
step_verdict (reconciling r m) v = (some is_unknown, none, some is_true)
step_verdict (stalled r m) v = (some is_false, some is_true, none)
step_verdict (not_ready r m) v = (some is_false, v.1, v.2)
step_verdict (ready m) v = (some is_true, none, none)
step_verdict suspended v = (some is_false, none, none)
step_verdict (drifted n) v = v
step_verdict (module_resolved m) v = v
step_verdict undrifted v = v

abbrev pub step_verdicts :
    List MarkCall
    → Option ConditionStatus × Option ConditionStatus × Option ConditionStatus
    → Option ConditionStatus × Option ConditionStatus × Option ConditionStatus
step_verdicts [] v = v
step_verdicts (c ∷ calls) v = step_verdicts calls (step_verdict c v)

module _ (api : ConditionApi) where
  -- The statuses of Ready, Stalled and Reconciling.
  unfoldable pub verdict :
      List Condition → Option ConditionStatus × Option ConditionStatus × Option ConditionStatus
  verdict cs = (
    status_of (api.find ready_condition cs),
    status_of (api.find stalled_condition cs),
    status_of (api.find reconciling_condition cs),
  )

  pub verdict-mark_ready :
      (cs : List Condition)
      → verdict (mark_ready api "Reconciliation succeeded" cs) ≡ expected_verdict no_op
  unfolding verdict mark_ready
  verdict-mark_ready cs = simp (api.find-mark, api.find-delete)

  pub verdict-run_mark :
      (c : MarkCall) (cs : List Condition)
      → verdict (run_mark api c cs) ≡ step_verdict c (verdict cs)
  unfolding verdict run_mark mark_reconciling mark_stalled mark_not_ready mark_ready mark_drifted
      mark_module_resolved mark_suspended clear_drifted
  verdict-run_mark (reconciling r m) cs = simp (api.find-mark, api.find-mark_reconciling)
  verdict-run_mark (stalled r m) cs = simp (api.find-mark, api.find-mark_stalled)
  verdict-run_mark (not_ready r m) cs = simp api.find-mark
  verdict-run_mark (ready m) cs = simp (api.find-mark, api.find-delete)
  verdict-run_mark suspended cs = simp (api.find-mark, api.find-delete)
  verdict-run_mark (drifted n) cs = simp api.find-mark
  verdict-run_mark (module_resolved m) cs = simp api.find-mark
  verdict-run_mark undrifted cs = simp api.find-delete

  -- Any sequence of Mark calls, on any conditions, steps the statuses of Ready, Stalled and Reconciling
  -- as the three-flag machine does: the conditions implement that machine.
  pub verdict-run_marks :
      (calls : List MarkCall) (cs : List Condition)
      → verdict (run_marks api calls cs) ≡ step_verdicts calls (verdict cs)
  unfolding run_marks
  verdict-run_marks [] cs = refl
  verdict-run_marks (c ∷ calls) cs =
      verdict-run_marks calls (run_mark api c cs) ∙ ap (step_verdicts calls) (verdict-run_mark c cs)
