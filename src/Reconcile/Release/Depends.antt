-- ===== src/Reconcile/Release/Depends.antt =====
-- checkDependsOn of internal/reconcile/release.go.
pub mod Laws
use poc_controller.Prelude.{
  String, Bool, true, false, not, ◌&&◌, Option, none, some, List, [], ◌∷◌, ◌==◌, ◌^^◌, is_empty,
  Error, Result, ok, err, wrap, if◌then◌else◌,
}
use poc_controller.Api.{Release, DependencyReference}
use poc_controller.Status.Conditions.{ConditionApi, ready_condition}
use poc_controller.Apply.Impersonate.{is_not_found}
use poc_controller.Source.{is_ready}
use poc_controller.Reconcile.Release.Path.{plain_error}

-- What the look-up of one dependency means: nothing, a blocker's description, or an error.
check_found : ConditionApi → String → Result Release → Result String
check_found api place (err e) =
    if is_not_found e
    then ok (place ^^ " (not found)")
    else err (wrap ("getting dependency " ^^ place ^^ ": ") e)
check_found api place (ok other) =
    if not (is_ready (api.find ready_condition other.status.conditions)) then ok place else ok ""

-- One round of the loop: the empty text where the dependency is satisfied.
unfoldable pub check_dependency :
    ConditionApi → (String → String → Result Release) → String → DependencyReference → Result String
unfolding check_found
check_dependency api get ns dep =
    if not (is_empty dep.namespace) && not (dep.namespace == ns)
    then err (
        plain_error (
          "dependency " ^^ dep.namespace ^^ "/" ^^ dep.name
          ^^ ": cross-namespace dependencies are not supported"))
    else check_found api (ns ^^ "/" ^^ dep.name) (get ns dep.name)

-- checkDependsOn
unfoldable pub check_depends_on :
    ConditionApi
    → (String → String → Result Release)
    → String
    → List DependencyReference
    → Result String
check_depends_on api get ns [] = ok ""
check_depends_on api get ns (dep ∷ deps) =
    let rest = check_depends_on api get ns deps in
    elim (check_dependency api get ns dep) [
      | err e ↦ err e
      | ok blocker ↦ if is_empty blocker then rest else ok blocker
    ]
