-- ===== src/Apply/Drift.antt =====
-- internal/apply/drift.go: a dry run of each resource.
pub mod Laws
use poc_controller.Prelude.{
  String, Bool, List, [], ◌∷◌, ◌++◌, ◌^^◌, length, ltb, Result, ok, err, wrap,
}
use poc_controller.Core.{Unstructured}
use poc_controller.Apply.Ssa.{Action, configured, ResourceManager}

pub record DriftedResource : Type 0 where
  pub group : String
  pub kind : String
  pub namespace : String
  pub name : String

pub record DriftResult : Type 0 where
  pub drifted : Bool
  pub resources : List DriftedResource

drifted_resource : Unstructured → DriftedResource
drifted_resource r = record {
  group = r.group;
  kind = r.kind;
  namespace = r.namespace;
  name = r.name;
}

-- What an entry's action adds to result.Resources.
add_drifted : Action → Unstructured → List DriftedResource → List DriftedResource
unfolding drifted_resource
add_drifted configured r acc = acc ++ drifted_resource r ∷ []
add_drifted _ r acc = acc

-- the loop over the resources
drift_loop :
    {C : Type 0}
    → ResourceManager C
    → C
    → List DriftedResource
    → List Unstructured
    → Result (List DriftedResource)
unfolding add_drifted
drift_loop rm c acc [] = ok acc
drift_loop rm c acc (r ∷ rs) = elim (rm.diff r c) [
  | err e ↦
      err (wrap ("dry-run diff for " ^^ r.namespace ^^ "/" ^^ r.name ^^ " " ^^ r.kind ^^ ": ") e)
  | ok action ↦ drift_loop rm c (add_drifted action r acc) rs
]

-- DetectDrift
unfoldable pub detect_drift :
    {C : Type 0} → ResourceManager C → List Unstructured → C → Result DriftResult
unfolding drift_loop
detect_drift rm resources c = elim (drift_loop rm c [] resources) [
  | err e ↦ err e
  | ok rs ↦ ok (record { drifted = ltb 0 (length rs); resources = rs })
]
