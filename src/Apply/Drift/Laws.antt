-- ===== src/Apply/Drift/Laws.antt =====
-- DetectDrift of internal/apply/drift.go against a filter of the resources.
use poc_controller.Prelude.{
  Bool, true, false, ◌&&◌, ◌≡◌, ◌↔◌, inl, inr, refl, sym, ap, ◌∙◌, List, [], ◌∷◌, ◌++◌, length, ltb,
  any_of, ok, err, Error, arith, Bool-cases, Result-cases, if◌then◌else◌,
}
use mathlib.Core.List.{append_assoc, append-nil}
use poc_controller.Core.{Unstructured}
use poc_controller.Apply.Ssa.{Action, configured, ResourceManager}
use poc_controller.Apply.Drift.{
  DriftedResource, DriftResult, drifted_resource, add_drifted, drift_loop, detect_drift,
}

module _ {C : Type 0} (rm : ResourceManager C) (c : C) where
  -- The dry run of a resource gives an answer, and says that it would change the live object.
  abbrev pub is_answered : Unstructured → Bool
  is_answered r = elim (rm.diff r c) [ ok action ↦ true | err e ↦ false ]

  abbrev pub is_drifted : Unstructured → Bool
  is_drifted r = elim (rm.diff r c) [ ok configured ↦ true | _ ↦ false ]

  unfoldable pub all_answered : List Unstructured → Bool
  all_answered [] = true
  all_answered (r ∷ rs) = is_answered r && all_answered rs

  -- The drifted resources, in order.
  unfoldable pub drifts : List Unstructured → List DriftedResource
  drifts [] = []
  drifts (r ∷ rs) =
      let rest = drifts rs in
      if is_drifted r
      then record { group = r.group; kind = r.kind; namespace = r.namespace; name = r.name } ∷ rest
      else rest

  add_drifted_lem :
      (action : Action) (r : Unstructured) (acc rest : List DriftedResource)
      → rm.diff r c ≡ ok action
      → add_drifted action r acc ++ rest
        ≡ acc ++ (if is_drifted r then drifted_resource r ∷ rest else rest)
  unfolding add_drifted drifted_resource
  add_drifted_lem configured r acc rest e =
      append_assoc acc (drifted_resource r ∷ []) rest ∙ rw (e, is_drifted) refl
  add_drifted_lem _ r acc rest e = rw (e, is_drifted) refl

  drift_loop_ok :
      (acc : List DriftedResource) (rs : List Unstructured)
      → all_answered rs ≡ true
      → drift_loop rm c acc rs ≡ ok (acc ++ drifts rs)
  unfolding drift_loop drifts all_answered
  drift_loop_ok acc [] h = ap ok (sym (append-nil acc))
  drift_loop_ok acc (r ∷ rs) h = elim (Result-cases (rm.diff r c)) [
    | inl (action, e) ↦
        rw (e, drift_loop)
          (drift_loop_ok (add_drifted action r acc) rs (ground (arith, e, h))
            ∙ ap ok (add_drifted_lem action r acc (drifts rs) e))
    | inr (x, e) ↦ absurd (ground (arith, e, h))
  ]

  drift_loop_fails :
      (acc : List DriftedResource) (rs : List Unstructured)
      → all_answered rs ≡ false
      → (e : Error) × (drift_loop rm c acc rs ≡ err e)
  unfolding drift_loop all_answered
  drift_loop_fails acc [] h = absurd (cc)
  drift_loop_fails acc (r ∷ rs) h = elim (Result-cases (rm.diff r c)) [
    | inl (action, e) ↦
        rw (e, drift_loop) (drift_loop_fails (add_drifted action r acc) rs (ground (arith, e, h)))
    | inr (x, e) ↦ rw (e, drift_loop) (_, refl)
  ]

  drifted_lem : (rs : List Unstructured) → ltb 0 (length (drifts rs)) ≡ any_of is_drifted rs
  unfolding drifts
  drifted_lem [] = refl
  drifted_lem (r ∷ rs) = ground (arith, drifted_lem rs)

  -- DetectDrift gives a result exactly if every dry run is answered, and the result then holds the
  -- resources, in order, whose dry run says that it would change the live object, and is drifted
  -- exactly if there is one.
  pub detect_drift_iff :
      (rs : List Unstructured) (d : DriftResult)
      → (detect_drift rm rs c ≡ ok d) ↔ (
          (all_answered rs ≡ true) × (d.resources ≡ drifts rs) × (d.drifted ≡ any_of is_drifted rs))
  unfolding detect_drift
  detect_drift_iff rs d = elim (Bool-cases (all_answered rs)) [
    | inl t ↦ ground (arith, t, drift_loop_ok [] rs t, drifted_lem rs)
    | inr f ↦ let (e, fails) = drift_loop_fails [] rs f in ground (arith, f, fails)
  ]
