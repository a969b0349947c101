-- ===== src/Status/Conditions/Laws.antt =====
-- The Mark functions of internal/status/conditions.go: what a later look-up finds, and what they keep.
use poc_controller.Prelude.{
  Bool, true, false, not, ◌&&◌, ◌||◌, is_none, Bool-cases, Option, Option-cases, arith, String, ◌≡◌,
  ◌≢◌, ◌⊎◌, inl, inr, none, some, List, [], ◌∷◌, ◌==◌, if◌then◌else◌,
}
use poc_controller.Api.{Condition, is_true, is_false, is_unknown}
use poc_controller.Status.Conditions.{
  ConditionApi, condition, ready_condition, reconciling_condition, stalled_condition,
  mark_reconciling, mark_stalled, mark_ready, mark_suspended, mark_not_ready, mark_drifted,
  clear_drifted, mark_module_resolved,
}

-- One call of a Mark function.
pub data MarkCall : Type 0 where
  reconciling stalled not_ready : String → String → MarkCall
  ready drifted module_resolved : String → MarkCall
  suspended undrifted : MarkCall

-- A condition that is there with the status True.
abbrev pub is_met : Option Condition → Bool
is_met none = false
is_met (some c) = elim c.status [ is_true ↦ true | _ ↦ false ]

module _ (api : ConditionApi) where
  unfoldable pub run_mark : MarkCall → List Condition → List Condition
  run_mark (reconciling r m) cs = mark_reconciling api r m cs
  run_mark (stalled r m) cs = mark_stalled api r m cs
  run_mark (not_ready r m) cs = mark_not_ready api r m cs
  run_mark (ready m) cs = mark_ready api m cs
  run_mark (drifted n) cs = mark_drifted api n cs
  run_mark (module_resolved m) cs = mark_module_resolved api m cs
  run_mark suspended cs = mark_suspended api cs
  run_mark undrifted cs = clear_drifted api cs

  unfoldable pub run_marks : List MarkCall → List Condition → List Condition
  run_marks [] cs = cs
  run_marks (c ∷ calls) cs = run_marks calls (run_mark c cs)

  -- Stalled and Reconciling exclude one another, and Ready=True excludes both.
  pub record IsConsistent (cs : List Condition) : Type 0 where
    pub exclusive :
        (api.find stalled_condition cs ≡ none) ⊎ (api.find reconciling_condition cs ≡ none)
    pub settled :
        (c : Condition)
        → api.find ready_condition cs ≡ some c
        → c.status ≡ is_true
        → (api.find stalled_condition cs ≡ none) × (api.find reconciling_condition cs ≡ none)

  -- A Ready condition that is not True promises nothing.
  unsettled :
      (cs : List Condition) (d : Condition)
      → api.find ready_condition cs ≡ some d
      → d.status ≢ is_true
      → (c : Condition) → api.find ready_condition cs ≡ some c
      → c.status ≡ is_true
      → (api.find stalled_condition cs ≡ none) × (api.find reconciling_condition cs ≡ none)
  unsettled cs d f n c e t = absurd (n (cc))

  -- Whatever the conditions were, MarkReady makes them consistent.
  pub IsConsistent-ready : (m : String) (cs : List Condition) → IsConsistent (run_mark (ready m) cs)
  unfolding run_mark mark_ready
  IsConsistent-ready m cs = record {
    exclusive = inl (simp (api.find-mark, api.find-delete));
    settled =
        λ c e t. (simp (api.find-mark, api.find-delete), simp (api.find-mark, api.find-delete));
  }

  pub run_mark-IsConsistent :
      (call : MarkCall) (cs : List Condition) → IsConsistent cs → IsConsistent (run_mark call cs)
  unfolding run_mark mark_reconciling mark_stalled mark_not_ready mark_ready mark_drifted
      mark_module_resolved mark_suspended clear_drifted
  run_mark-IsConsistent (reconciling r m) cs h = record {
    exclusive = inl (simp (api.find-mark, api.find-mark_reconciling));
    settled = unsettled _ (condition ready_condition is_unknown r m) (simp api.find-mark) (λ e. cc);
  }
  run_mark-IsConsistent (stalled r m) cs h = record {
    exclusive = inr (simp (api.find-mark, api.find-mark_stalled));
    settled = unsettled _ (condition ready_condition is_false r m) (simp api.find-mark) (λ e. cc);
  }
  run_mark-IsConsistent (not_ready r m) cs h = record {
    exclusive = simp api.find-mark h.exclusive;
    settled = unsettled _ (condition ready_condition is_false r m) (simp api.find-mark) (λ e. cc);
  }
  run_mark-IsConsistent (ready m) cs h = IsConsistent-ready m cs
  run_mark-IsConsistent suspended cs h = record {
    exclusive = inl (simp (api.find-mark, api.find-delete));
    settled =
        λ c e t. (simp (api.find-mark, api.find-delete), simp (api.find-mark, api.find-delete));
  }
  run_mark-IsConsistent (drifted m) cs h = record {
    exclusive = simp api.find-mark h.exclusive;
    settled = simp api.find-mark h.settled;
  }
  run_mark-IsConsistent (module_resolved m) cs h = record {
    exclusive = simp api.find-mark h.exclusive;
    settled = simp api.find-mark h.settled;
  }
  run_mark-IsConsistent undrifted cs h = record {
    exclusive = simp api.find-delete h.exclusive;
    settled = simp api.find-delete h.settled;
  }

  run_marks-IsConsistent :
      (calls : List MarkCall) (cs : List Condition)
      → IsConsistent cs
      → IsConsistent (run_marks calls cs)
  unfolding run_marks
  run_marks-IsConsistent [] cs h = h
  run_marks-IsConsistent (c ∷ calls) cs h =
      run_marks-IsConsistent calls (run_mark c cs) (run_mark-IsConsistent c cs h)

  -- The same as a test of a condition list.
  unfoldable pub is_consistent : List Condition → Bool
  is_consistent cs =
      let stalled = api.find stalled_condition cs in
      let reconciling = api.find reconciling_condition cs in
      (is_none stalled || is_none reconciling)
      && (not (is_met (api.find ready_condition cs)) || (is_none stalled && is_none reconciling))

  is_consistent_sound : (cs : List Condition) → is_consistent cs ≡ true → IsConsistent cs
  unfolding is_consistent
  is_consistent_sound cs h = record {
    exclusive = ground (arith, h);
    settled = λ c e t. (ground (arith, h, e, t), ground (arith, h, e, t));
  }

  is_consistent_complete : (cs : List Condition) → IsConsistent cs → is_consistent cs ≡ true
  unfolding is_consistent
  is_consistent_complete cs h = elim (Option-cases (api.find ready_condition cs)) [
    | inl absent ↦ ground (arith, absent, h.exclusive)
    | inr (c, e) ↦ elim (Bool-cases (is_met (some c))) [
      | inl met ↦ ground (arith, e, met, h.settled c e (ground (arith, met)))
      | inr unmet ↦ ground (arith, e, unmet, h.exclusive)
    ]
  ]

  -- From conditions that are consistent, whatever Mark calls follow in whatever order, the conditions
  -- stay consistent: Stalled and Reconciling are never both present, and Ready=True excludes both.
  pub run_marks-is_consistent :
      (calls : List MarkCall) (cs : List Condition)
      → is_consistent cs ≡ true
      → is_consistent (run_marks calls cs) ≡ true
  run_marks-is_consistent calls cs h =
      is_consistent_complete (run_marks calls cs)
        (run_marks-IsConsistent calls cs (is_consistent_sound cs h))

  -- What a look-up of any type finds after each of the four calls that decide readiness: the Ready
  -- condition with its status and reason, the flag that goes with it, no contrary flag, and every
  -- other type as before.
  find-run_mark :
      (k r m : String) (cs : List Condition)
      → (api.find k (run_mark (ready m) cs) ≡ (
          if ready_condition == k
          then some (condition ready_condition is_true "ReconciliationSucceeded" m)
          else if stalled_condition == k
          then none
          else if reconciling_condition == k
          then none
          else api.find k cs))
        × (api.find k (run_mark suspended cs) ≡ (
            if ready_condition == k
            then some (condition ready_condition is_false "Suspended" "Reconciliation is suspended")
            else if stalled_condition == k
            then none
            else if reconciling_condition == k
            then none
            else api.find k cs))
        × (api.find k (run_mark (stalled r m) cs) ≡ (
            if ready_condition == k
            then some (condition ready_condition is_false r m)
            else if stalled_condition == k
            then some (condition stalled_condition is_true r m)
            else if reconciling_condition == k
            then none
            else api.find k cs))
        × (api.find k (run_mark (reconciling r m) cs) ≡ (
            if ready_condition == k
            then some (condition ready_condition is_unknown r m)
            else if reconciling_condition == k
            then some (condition reconciling_condition is_true r m)
            else if stalled_condition == k
            then none
            else api.find k cs))
  unfolding run_mark mark_reconciling mark_stalled mark_ready mark_suspended
  find-run_mark k r m cs = (
    simp (api.find-mark, api.find-delete),
    simp (api.find-mark, api.find-delete),
    simp (api.find-mark, api.find-mark_stalled),
    simp (api.find-mark, api.find-mark_reconciling),
  )
