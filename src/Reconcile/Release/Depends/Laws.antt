-- ===== src/Reconcile/Release/Depends/Laws.antt =====
-- checkDependsOn of internal/reconcile/release.go: when a release may go on.
use poc_controller.Prelude.{
  String, Bool, true, false, ◌&&◌, ◌||◌, ◌==◌, ◌^^◌, ◌≡◌, ◌↔◌, inl, inr, refl, ap, List, [], ◌∷◌,
  Result, ok, err, is_empty, is_empty_joined, is_empty_right, All, arith, eq_iff, Bool-cases,
}
use poc_controller.Api.{Release, DependencyReference}
use poc_controller.Status.Conditions.{ConditionApi, ready_condition}
use poc_controller.Source.{is_ready}
use poc_controller.Reconcile.Release.Depends.{check_found, check_dependency, check_depends_on}

-- An answer that blocks nothing.
abbrev passes : Result String → Bool
passes (err e) = false
passes (ok blocker) = is_empty blocker

passes_iff : (r : Result String) → (passes r ≡ true) ↔ (r ≡ ok "")
passes_iff (err e) = (λ h. cc, λ h. cc)
passes_iff (ok blocker) = (λ h. ap ok ((eq_iff blocker "").0 h), λ h. ap passes h)

module _ (api : ConditionApi) (get : String → String → Result Release) (ns : String) where
  -- A dependency that is satisfied: it names no other namespace, and it is there and has Ready=True.
  pub record IsSatisfied (dep : DependencyReference) : Type 0 where
    pub local : (is_empty dep.namespace || dep.namespace == ns) ≡ true
    pub other : Release
    pub found : get ns dep.name ≡ ok other
    pub ready : is_ready (api.find ready_condition other.status.conditions) ≡ true

  found_passes :
      (place : String) (answer : Result Release)
      → is_empty place ≡ false
      → is_empty (place ^^ " (not found)") ≡ false
      → passes (check_found api place answer) ≡ true
      → (other : Release) × (answer ≡ ok other)
        × (is_ready (api.find ready_condition other.status.conditions) ≡ true)
  unfolding check_found
  found_passes place (err e) h k p = absurd (ground arith)
  found_passes place (ok other) h k p = (other, refl, ground arith)

  found_ready :
      (place : String) (answer : Result Release) (other : Release)
      → answer ≡ ok other
      → is_ready (api.find ready_condition other.status.conditions) ≡ true
      → passes (check_found api place answer) ≡ true
  unfolding check_found
  found_ready place answer other e r = rw (e, check_found, r) refl

  check_dependency-passes :
      (dep : DependencyReference)
      → passes (check_dependency api get ns dep) ≡ true
      → IsSatisfied dep
  unfolding check_dependency
  check_dependency-passes dep p =
      elim (Bool-cases (is_empty dep.namespace || dep.namespace == ns)) [
        | inl l ↦
            let place = ns ^^ "/" ^^ dep.name in
            let (other, e, r) =
              found_passes place (get ns dep.name) (is_empty_joined ns "/" dep.name refl)
                (is_empty_right place " (not found)" refl) (ground arith) in
            record { local = l; other = other; found = e; ready = r }
        | inr far ↦ absurd (ground arith)
      ]

  check_dependency_ready :
      (dep : DependencyReference)
      → IsSatisfied dep
      → passes (check_dependency api get ns dep) ≡ true
  unfolding check_dependency
  check_dependency_ready dep h = ground (
    arith,
    found_ready (ns ^^ "/" ^^ dep.name) (get ns dep.name) h.other h.found h.ready,
    h.local,
  )

  check_depends_on_step :
      (dep : DependencyReference) (deps : List DependencyReference)
      → passes (check_depends_on api get ns (dep ∷ deps))
        ≡ (passes (check_dependency api get ns dep) && passes (check_depends_on api get ns deps))
  unfolding check_depends_on
  check_depends_on_step dep deps = ground arith

  check_depends_on-passes :
      (deps : List DependencyReference)
      → (passes (check_depends_on api get ns deps) ≡ true) ↔ All IsSatisfied deps
  unfolding check_depends_on
  check_depends_on-passes [] = (λ _. tt, λ _. refl)
  check_depends_on-passes (dep ∷ deps) =
      let step = check_depends_on_step dep deps in
      let (to, from) = check_depends_on-passes deps in
      (
        λ p. (check_dependency-passes dep (ground (arith, step)), to (ground (arith, step))),
        λ h. ground (arith, step, check_dependency_ready dep h.0, from h.1),
      )

  -- checkDependsOn answers that nothing blocks the release exactly if every dependency names no other
  -- namespace than the release's, is found there, and has Ready=True.
  pub check_depends_on_iff :
      (deps : List DependencyReference)
      → (check_depends_on api get ns deps ≡ ok "") ↔ All IsSatisfied deps
  check_depends_on_iff deps =
      let (to, from) = check_depends_on-passes deps in
      let (passes_to, passes_from) = passes_iff (check_depends_on api get ns deps) in
      (λ h. to (passes_from h), λ h. passes_to (from h))
