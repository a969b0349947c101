-- ===== src/Reconcile/Module/Attempt/Coherence.antt =====
-- The body of ReconcileModuleRelease of internal/reconcile/modulerelease.go: what it leaves in memory
-- for the deferred commit, on every path.
use poc_controller.Prelude.{
  if_both, ℕ, subst, sym, ltb, ◌||◌, decimal, length, Option-cases, String, Bool, true, false, not,
  ◌≡◌, refl, ap, ◌∙◌, Option, none, some, List, [], arith, Error, Result-cases, Bool-cases, inl,
  inr, ◌^^◌,
}
use poc_controller.Api.{
  ModuleRelease, ModuleReleaseStatus, ConditionStatus, is_unknown, is_true, InventoryEntry,
}
use poc_controller.Core.{Unstructured}
use poc_controller.Status.Conditions.{mark_stalled, mark_reconciling}
use poc_controller.Status.Conditions.Laws.{
  MarkCall, reconciling, stalled, not_ready, ready, drifted, module_resolved, undrifted, run_mark,
}
use poc_controller.Status.Digests.{DigestSet, render_digest}
use poc_controller.Apply.Ssa.{ResourceManager}
use poc_controller.Apply.Prune.{Client}
use poc_controller.Reconcile.Outcome.{
  Outcome, PhaseOutcomes, no_phases, no_op, applied, applied_and_pruned, failed_transient,
  failed_stalled, is_failure,
}
use poc_controller.Reconcile.Verdict.{verdict, expected_verdict, step_verdict, verdict-run_mark}
use poc_controller.Reconcile.World.{RenderResult, normal, warning}
use poc_controller.Apply.Drift.{detect_drift}
use poc_controller.Apply.Prune
use poc_controller.Apply.Ssa
use poc_controller.Reconcile.Release.Applying.{force_conflicts}
use poc_controller.Reconcile.Release.Phases.{to_unstructured_slice}
use poc_controller.Reconcile.Release.Attempt.Coherence.{is_applied, failure_not_applied}
use poc_controller.Reconcile.Module.World.{ModuleWorld, ModuleState, Effect, event, emit, annotate}
use poc_controller.Reconcile.Module.Applying.{
  StalePrune, extract_release_uuid, detect_module_drift, fail_prune, prune_stale_resources,
  build_apply_client,
}
use poc_controller.Reconcile.Module.Attempt.{
  ModuleAttempt, end_failed, conclude_module, fail_apply, apply_module, start_apply, set_uuid,
  plan_module, convert_module, digest_module, module_attempt, render_reason,
}

-- The statuses of Ready, Stalled and Reconciling.
abbrev Verdict : Type 0
Verdict = Option ConditionStatus × Option ConditionStatus × Option ConditionStatus

-- Those that MarkReconciling leaves.
abbrev pub in_progress : Verdict
in_progress = (some is_unknown, none, some is_true)

-- Those that the body leaves: on a no-op the commit still has to write them.
abbrev pub verdict_left : Outcome → Verdict
verdict_left no_op = in_progress
verdict_left o = expected_verdict o

module _ {C : Type 0} (w : ModuleWorld C) (base : ModuleRelease) where
  -- The release in hand is the one that was loaded, but for its conditions and its identity, and its
  -- conditions have the statuses `v`.
  pub record IsCarried (v : Verdict) (s : ModuleState C) : Type 0 where
    pub spec : s.mr.spec ≡ base.spec
    pub metadata : s.mr.metadata ≡ base.metadata
    pub status : s.mr.status ≡ record (base.status) {
      conditions = s.mr.status.conditions;
      release_uuid = s.mr.status.release_uuid;
    }
    pub statuses : verdict w.conditions s.mr.status.conditions ≡ v

  pub IsCarried-annotate :
      (c : MarkCall) {v : Verdict} {s : ModuleState C}
      → IsCarried v s
      → IsCarried (step_verdict c v) (annotate (run_mark w.conditions c) s)
  unfolding annotate
  IsCarried-annotate c {v} {s} h = record {
    spec = h.spec;
    metadata = h.metadata;
    status =
        ap
          (λ (t : ModuleReleaseStatus). record t {
            conditions = run_mark w.conditions c s.mr.status.conditions;
          })
          h.status;
    statuses =
        verdict-run_mark w.conditions c s.mr.status.conditions ∙ ap (step_verdict c) h.statuses;
  }

  IsCarried-emit :
      (e : Effect) {v : Verdict} {s : ModuleState C} → IsCarried v s → IsCarried v (emit e s)
  unfolding emit
  IsCarried-emit e h = record {
    spec = h.spec;
    metadata = h.metadata;
    status = h.status;
    statuses = h.statuses;
  }

  IsCarried-cluster :
      (c : C) {v : Verdict} {s : ModuleState C}
      → IsCarried v s
      → IsCarried v (record s { cluster = c })
  IsCarried-cluster c h = record {
    spec = h.spec;
    metadata = h.metadata;
    status = h.status;
    statuses = h.statuses;
  }

  IsCarried-set_uuid :
      (resources : List Unstructured) {v : Verdict} {s : ModuleState C}
      → IsCarried v s
      → IsCarried v (set_uuid w resources s)
  IsCarried-set_uuid resources {v} h =
      if_both (IsCarried v) _
        (record {
          spec = h.spec;
          metadata = h.metadata;
          status =
              ap
                (λ (t : ModuleReleaseStatus). record t {
                  release_uuid = extract_release_uuid resources;
                })
                h.status;
          statuses = h.statuses;
        })
        h

  IsCarried-detect_module_drift :
      (resources : List Unstructured) (s : ModuleState C) {v : Verdict}
      → IsCarried v s
      → IsCarried v (detect_module_drift w resources s).1
  unfolding detect_module_drift run_mark
  IsCarried-detect_module_drift resources s {v} h =
      elim (Result-cases (detect_drift w.resource_manager resources s.cluster)) [
        | inl (result, e) ↦
            rw (e, detect_module_drift)
              (if_both (IsCarried v) result.drifted
                (IsCarried-annotate (drifted (decimal (length result.resources))) h)
                (IsCarried-annotate undrifted h))
        | inr (x, e) ↦ rw (e, detect_module_drift) h
      ]

  -- How the body ends.
  pub record IsSettled (a : ModuleAttempt C) : Type 0 where
    pub carried : IsCarried (verdict_left a.locals.outcome) a.state
    pub reconciled : a.locals.reconciled ≡ is_applied a.locals.outcome
    pub delay : a.requeue_after ≡ a.locals.retry_after
    pub no_delay : is_failure a.locals.outcome ≡ false → a.requeue_after ≡ 0

  failure_left : (o : Outcome) → is_failure o ≡ true → expected_verdict o ≡ verdict_left o
  failure_left o h = ground (arith)

  -- A failure whose conditions are marked.
  IsSettled-end_failed :
      (outcome : Outcome) (msg : String) (delay : ℕ) (digests : DigestSet)
      (entries : List InventoryEntry) (ph : PhaseOutcomes) {s : ModuleState C}
      → is_failure outcome ≡ true
      → IsCarried (expected_verdict outcome) s
      → IsSettled (end_failed w outcome msg delay digests entries ph s)
  IsSettled-end_failed outcome msg delay digests entries ph {s} f h = record {
    carried = subst (λ v. IsCarried v s) (failure_left outcome f) h;
    reconciled = failure_not_applied outcome f;
    delay = refl;
    no_delay = λ e. cc;
  }

  IsSettled-stall :
      (reason m msg : String) (delay : ℕ) (digests : DigestSet) (entries : List InventoryEntry)
      (ph : PhaseOutcomes) {s : ModuleState C}
      → IsCarried in_progress s
      → IsSettled (
          end_failed w failed_stalled msg delay digests entries ph
            (annotate (mark_stalled w.conditions reason m) s))
  unfolding run_mark
  IsSettled-stall reason m msg delay digests entries ph h =
      IsSettled-end_failed failed_stalled msg delay digests entries ph refl
        (IsCarried-annotate (stalled reason m) h)

  IsSettled-fail_apply :
      (sa : String) (e : Error) (digests : DigestSet) (ph : PhaseOutcomes) (s : ModuleState C)
      → IsCarried in_progress s
      → IsSettled (fail_apply w sa e digests ph s)
  unfolding fail_apply run_mark
  IsSettled-fail_apply sa e digests ph s h =
      let k = IsCarried-emit (event warning "ApplyFailed" "Apply") h in
      if_both IsSettled _ (IsSettled-stall _ _ _ _ _ _ _ k) (
        IsSettled-end_failed failed_transient _ _ _ _ _ refl
          (IsCarried-annotate (not_ready "ApplyFailed" e.msg) k))

  -- How pruneStaleResources ends: with an outcome of success and nothing marked, or with a failure
  -- whose conditions are marked.
  data IsPruned : StalePrune × ModuleState C → Type 0 where
    kept :
        (outcome : Outcome) {s : ModuleState C}
        → is_applied outcome ≡ true
        → IsCarried in_progress s
        → IsPruned (record { outcome = outcome; reconciled = true; error = none }, s)
    refused :
        (outcome : Outcome) (error : Option Error) {s : ModuleState C}
        → is_failure outcome ≡ true
        → IsCarried (expected_verdict outcome) s
        → IsPruned (record { outcome = outcome; reconciled = false; error = error }, s)

  IsPruned-fail_prune :
      (sa : String) (e : Error) (s : ModuleState C)
      → IsCarried in_progress s
      → IsPruned (fail_prune w sa e s)
  unfolding fail_prune run_mark
  IsPruned-fail_prune sa e s h =
      let k = IsCarried-emit (event warning "PruneFailed" "Prune") h in
      if_both IsPruned _
        (refused failed_stalled none refl
          (IsCarried-annotate (stalled "ImpersonationFailed" e.msg) k))
        (refused failed_transient (some e) refl
          (IsCarried-annotate (not_ready "PruneFailed" e.msg) k))

  IsPruned-prune_stale_resources :
      (client : Client C) (stale : List InventoryEntry) (sa : String) (s : ModuleState C)
      → IsCarried in_progress s
      → IsPruned (prune_stale_resources w client stale sa s)
  unfolding prune_stale_resources
  IsPruned-prune_stale_resources client stale sa s h =
      let uuid = s.mr.status.release_uuid in
      let (counts, error, c) = Prune.prune client uuid stale s.cluster in
      let k = IsCarried-emit (Effect.prune uuid stale) (IsCarried-cluster c h) in
      elim (Bool-cases (not s.mr.spec.prune || not (ltb 0 (length stale)))) [
        | inl t ↦ rw (t, prune_stale_resources) (kept applied refl h)
        | inr f ↦ elim (Option-cases error) [
          | inl e ↦
              rw (f, e, prune_stale_resources)
                (kept applied_and_pruned refl (
                  if_both (IsCarried in_progress) _
                    (IsCarried-emit (event normal "Pruned" "Prune") k) k))
          | inr (x, e) ↦ rw (f, e, prune_stale_resources) (IsPruned-fail_prune sa x _ k)
        ]
      ]

  applied_left : (o : Outcome) → is_applied o ≡ true → expected_verdict no_op ≡ verdict_left o
  applied_left o h = ground (arith)

  IsCarried-applied :
      (o : Outcome) {s : ModuleState C}
      → is_applied o ≡ true
      → IsCarried (expected_verdict no_op) s
      → IsCarried (verdict_left o) s
  IsCarried-applied o {s} a h = subst (λ v. IsCarried v s) (applied_left o a) h

  IsSettled-conclude_module :
      (digests : DigestSet) (entries : List InventoryEntry) (ph : PhaseOutcomes)
      {r : StalePrune × ModuleState C}
      → IsPruned r
      → IsSettled (conclude_module w digests entries ph r)
  unfolding conclude_module run_mark
  IsSettled-conclude_module digests entries ph (kept o {s} a h) = record {
    carried = IsCarried-applied o a (
        IsCarried-emit (event normal "ReconciliationSucceeded" "Reconcile")
          (IsCarried-annotate (ready "Reconciliation succeeded") h));
    reconciled = sym a;
    delay = refl;
    no_delay = λ e. refl;
  }
  IsSettled-conclude_module digests entries ph (refused o none f h) =
      IsSettled-end_failed o "" _ digests entries _ f h
  IsSettled-conclude_module digests entries ph (refused o (some e) f h) =
      IsSettled-end_failed o e.msg _ digests entries _ f h

  IsSettled-apply_module :
      (rm : ResourceManager C) (client : Client C) (result : RenderResult)
      (resources : List Unstructured) (stale : List InventoryEntry) (digests : DigestSet)
      (ph : PhaseOutcomes) (s : ModuleState C)
      → IsCarried in_progress s
      → IsSettled (apply_module w rm client result resources stale digests ph s)
  unfolding apply_module run_mark
  IsSettled-apply_module rm client result resources stale digests ph s h =
      let force = force_conflicts s.mr.spec.rollout in
      let (answer, c) = Ssa.apply rm resources force s.cluster in
      let k = IsCarried-emit (Effect.apply resources force) (IsCarried-cluster c h) in
      elim (Result-cases answer) [
        | inl (counts, e) ↦
            rw (e, apply_module)
              (IsSettled-conclude_module digests result.inventory_entries _ (
                IsPruned-prune_stale_resources client stale _ _ (
                  IsCarried-annotate undrifted
                    (IsCarried-emit (event normal "Applied" "Apply") k))))
        | inr (x, e) ↦ rw (e, apply_module) (IsSettled-fail_apply _ x digests _ _ k)
      ]

  IsSettled-start_apply :
      (result : RenderResult) (resources : List Unstructured) (digests : DigestSet)
      (ph : PhaseOutcomes) (s : ModuleState C)
      → IsCarried in_progress s
      → IsSettled (start_apply w result resources digests ph s)
  unfolding start_apply
  IsSettled-start_apply result resources digests ph s h =
      elim (Result-cases (build_apply_client w s.mr)) [
        | inl ((rm, client), e) ↦
            rw (e, start_apply) (IsSettled-apply_module rm client result resources _ digests _ s h)
        | inr (x, e) ↦ rw (e, start_apply) (IsSettled-stall _ _ x.msg _ digests [] ph h)
      ]

  IsSettled-plan_module :
      (idle : Bool) (result : RenderResult) (resources : List Unstructured) (digests : DigestSet)
      (r : Bool × ModuleState C)
      → IsCarried in_progress r.1
      → IsSettled (plan_module w idle result resources digests r)
  unfolding plan_module
  IsSettled-plan_module true result resources digests (bad, s) h = record {
    carried = IsCarried-emit (event normal "NoOp" "Reconcile") h;
    reconciled = refl;
    delay = refl;
    no_delay = λ e. refl;
  }
  IsSettled-plan_module false result resources digests (bad, s) h =
      IsSettled-start_apply result resources digests _ s h

  IsSettled-convert_module :
      (result : RenderResult) (digests : DigestSet) (s : ModuleState C)
      → IsCarried in_progress s
      → IsSettled (convert_module w result digests s)
  unfolding convert_module
  IsSettled-convert_module result digests s h =
      elim (Result-cases (to_unstructured_slice result.resources)) [
        | inl (resources, e) ↦
            rw (e, convert_module)
              (IsSettled-plan_module _ result resources digests _
                (IsCarried-detect_module_drift resources _ (IsCarried-set_uuid resources h)))
        | inr (x, e) ↦ rw (e, convert_module) (IsSettled-stall _ _ _ _ digests [] no_phases h)
      ]

  IsSettled-digest_module :
      (result : RenderResult) (digests : DigestSet) (s : ModuleState C)
      → IsCarried in_progress s
      → IsSettled (digest_module w result digests s)
  unfolding digest_module run_mark
  IsSettled-digest_module result digests s h =
      let ref = s.mr.spec.module_ref in
      let k = IsCarried-annotate (module_resolved (ref.path ^^ "@" ^^ ref.version)) h in
      elim (Result-cases (render_digest w.encoding result.resources)) [
        | inl (d, e) ↦ rw (e, digest_module) (IsSettled-convert_module result _ _ k)
        | inr (x, e) ↦ rw (e, digest_module) (IsSettled-stall _ _ _ _ digests [] no_phases k)
      ]

module _ {C : Type 0} (w : ModuleWorld C) where
  -- The body ends settled on every path.
  pub IsSettled-module_attempt : (s : ModuleState C) → IsSettled w s.mr (module_attempt w s)
  unfolding module_attempt run_mark annotate
  IsSettled-module_attempt s =
      let s0 =
        annotate (mark_reconciling w.conditions "Progressing" "Reconciliation in progress") s in
      let h : IsCarried w s.mr in_progress s0 =
        IsCarried-annotate w s.mr (reconciling "Progressing" "Reconciliation in progress")
          (record { spec = refl; metadata = refl; status = refl; statuses = refl }) in
      elim (Result-cases (
        w.render_module s.mr.metadata.name s.mr.metadata.namespace s.mr.spec.module_ref
          s.mr.spec.values)) [
            | inl (result, e) ↦ rw (e, module_attempt) (IsSettled-digest_module w s.mr result _ _ h)
            | inr (x, e) ↦
                rw (e, module_attempt)
                  (IsSettled-stall w s.mr _ _ _ _ _ [] no_phases
                    (IsCarried-emit w s.mr (event warning (render_reason w x) "Render") h))
          ]
