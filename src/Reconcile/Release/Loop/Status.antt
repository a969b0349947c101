-- ===== src/Reconcile/Release/Loop/Status.antt =====
-- What an attempt of ReconcileRelease (internal/reconcile/release.go) leaves in the release's status.
use poc_controller.Prelude.{
  ℕ, true, ◌≡◌, ◌≢◌, ◌⊎◌, inl, inr, refl, sym, ap, subst, ◌∙◌, Option, none, some, List, [], ◌∷◌,
  arith, if◌then◌else◌,
}
use poc_controller.Api.{Release, ReleaseStatus, Condition, is_true, is_false, is_unknown}
use poc_controller.Status.Conditions.{
  condition, ready_condition, stalled_condition, reconciling_condition, mark_ready,
  mark_reconciling,
}
use poc_controller.Status.Conditions.Laws.{reconciling, run_mark, run_marks, IsConsistent}
use poc_controller.Reconcile.Outcome.{
  Outcome, no_op, applied, applied_and_pruned, failed_transient, failed_stalled, is_failure,
}
use poc_controller.Reconcile.Verdict.{verdict, expected_verdict, verdict-mark_ready}
use poc_controller.Reconcile.World.{World, St, call, set_release}
use poc_controller.Reconcile.Release.Commit.{Locals, is_no_op_outcome, commit_status, commit}
use poc_controller.Reconcile.Release.Attempt.{Attempt, attempt}
use poc_controller.Reconcile.Release.Attempt.Marks.{remark}
use poc_controller.Reconcile.Release.Attempt.Coherence.{is_applied, IsCoherent}
use poc_controller.Reconcile.Release.Attempt.Stages.{IsCoherent-attempt}
use poc_controller.Reconcile.Release.Loop.{attempt_and_commit}

expected_applied : (o : Outcome) → is_applied o ≡ true → expected_verdict no_op ≡ expected_verdict o
expected_applied o h = ground arith

outcome_cases :
    (o : Outcome)
    → ((o ≡ no_op) ⊎ (is_applied o ≡ true)) ⊎ ((o ≡ failed_stalled) ⊎ (o ≡ failed_transient))
outcome_cases no_op = inl (inl refl)
outcome_cases applied = inl (inr refl)
outcome_cases applied_and_pruned = inl (inr refl)
outcome_cases failed_stalled = inr (inl refl)
outcome_cases failed_transient = inr (inr refl)

applied_not_idle : (o : Outcome) → is_applied o ≡ true → o ≢ no_op
applied_not_idle o h e = ground arith

module _ {C : Type 0} (w : World C) where
  -- The conditions that the commit writes.
  commit_status-conditions :
      (l : Locals) (rel : Release)
      → (commit_status w l rel).conditions ≡ (
          if is_no_op_outcome l.outcome
          then mark_ready w.conditions "Reconciliation succeeded" rel.status.conditions
          else rel.status.conditions)
  unfolding commit_status
  commit_status-conditions l rel = ground arith

  verdict_ready :
      (cs : List Condition) (c : Condition)
      → IsConsistent w.conditions cs
      → w.conditions.find ready_condition cs ≡ some c
      → c.status ≡ is_true
      → verdict w.conditions cs ≡ expected_verdict no_op
  unfolding verdict
  verdict_ready cs c h e t = let (a, b) = h.settled c e t in rw (e, a, b, t) refl

  verdict_stalled :
      (cs : List Condition)
      → IsConsistent w.conditions cs
      → (c : Condition) × (w.conditions.find ready_condition cs ≡ some c) × (c.status ≡ is_false)
      → (c : Condition) × (w.conditions.find stalled_condition cs ≡ some c) × (c.status ≡ is_true)
      → verdict w.conditions cs ≡ expected_verdict failed_stalled
  unfolding verdict
  verdict_stalled cs h (c, e, t) (d, f, u) = elim h.exclusive [
    | inl a ↦ absurd (not_none a f)
    | inr a ↦ rw (e, f, a, t, u) refl
  ]
    where
      not_none : {o : Option Condition} → o ≡ none → o ≢ some d
      not_none a f = cc

  abbrev start_conditions : St C → List Condition
  start_conditions s =
      (remark w (reconciling "Progressing" "Reconciliation in progress" ∷ [])
        s.rel).status.conditions

  start-IsConsistent : (s : St C) → IsConsistent w.conditions (start_conditions s)
  unfolding run_marks run_mark mark_reconciling
  start-IsConsistent s = record {
    exclusive = inl (simp (w.conditions.find-mark, w.conditions.find-mark_reconciling));
    settled = λ c e t. absurd (
        not_true (condition ready_condition is_unknown "Progressing" "Reconciliation in progress") c
          refl (sym (simp w.conditions.find-mark) ∙ e) t);
  }
    where
      not_true : (d c : Condition) → d.status ≡ is_unknown → some d ≡ some c → c.status ≢ is_true
      not_true d c u e t = ground (arith)

  verdict_transient :
      (s : St C) (cs : List Condition)
      → (c : Condition) × (w.conditions.find ready_condition cs ≡ some c) × (c.status ≡ is_false)
      → w.conditions.find stalled_condition cs
        ≡ w.conditions.find stalled_condition (start_conditions s)
      → w.conditions.find reconciling_condition cs
        ≡ w.conditions.find reconciling_condition (start_conditions s)
      → verdict w.conditions cs ≡ expected_verdict failed_transient
  unfolding verdict run_marks run_mark mark_reconciling
  verdict_transient s cs (c, e, t) a b =
      rw (e, a, b, t) (simp (w.conditions.find-mark, w.conditions.find-mark_reconciling))

module _ {C : Type 0} (w : World C) (interval : ℕ) (s : St C) where
  abbrev pub the_attempt : Attempt C
  the_attempt = attempt w interval s

  abbrev pub outcome : Outcome
  outcome = the_attempt.locals.outcome

  -- The release after the attempt and its commit.
  abbrev pub final : Release
  final = (attempt_and_commit w interval s).1.rel

  pub final-status : final.status ≡ commit_status w the_attempt.locals the_attempt.state.rel
  unfolding attempt_and_commit commit set_release call
  final-status = refl

  pub final-spec : final.spec ≡ the_attempt.state.rel.spec
  unfolding attempt_and_commit commit set_release call
  final-spec = refl

  pub final-metadata : final.metadata ≡ the_attempt.state.rel.metadata
  unfolding attempt_and_commit commit set_release call
  final-metadata = refl

  pub coherent :
      IsCoherent w
        (remark w (reconciling "Progressing" "Reconciliation in progress" ∷ []) s.rel)
        s.cluster
        the_attempt
  coherent = IsCoherent-attempt w interval s

  -- The conditions that the body leaves, as the final ones.
  final-conditions :
      outcome ≢ no_op → final.status.conditions ≡ the_attempt.state.rel.status.conditions
  final-conditions h =
      ap (λ (t : ReleaseStatus). t.conditions) final-status
      ∙ ground (arith, commit_status-conditions w the_attempt.locals the_attempt.state.rel)

  final-conditions_idle :
      outcome ≡ no_op
      → final.status.conditions
        ≡ mark_ready w.conditions "Reconciliation succeeded" the_attempt.state.rel.status.conditions
  final-conditions_idle h =
      ap (λ (t : ReleaseStatus). t.conditions) final-status
      ∙ ground (arith, commit_status-conditions w the_attempt.locals the_attempt.state.rel)

  -- The conditions that the commit writes, for the outcome that decides them.
  conditions_idle :
      outcome ≡ no_op → verdict w.conditions final.status.conditions ≡ expected_verdict no_op
  conditions_idle idle =
      subst (λ cs. verdict w.conditions cs ≡ expected_verdict no_op)
        (sym (final-conditions_idle idle))
        (verdict-mark_ready w.conditions the_attempt.state.rel.status.conditions)

  conditions_applied :
      is_applied outcome ≡ true
      → verdict w.conditions final.status.conditions ≡ expected_verdict no_op
  conditions_applied good =
      subst (λ cs. verdict w.conditions cs ≡ expected_verdict no_op)
        (sym (final-conditions (applied_not_idle outcome good)))
        (let (c, e, t) = coherent.success good in
          verdict_ready w _ c (coherent.keeps (start-IsConsistent w s)) e t)

  conditions_stalled :
      outcome ≡ failed_stalled
      → verdict w.conditions final.status.conditions ≡ expected_verdict failed_stalled
  conditions_stalled o =
      let marked = coherent.failure (ap is_failure o) in
      subst (λ cs. verdict w.conditions cs ≡ expected_verdict failed_stalled)
        (sym (final-conditions (λ e. cc)))
        (verdict_stalled w _ (coherent.keeps (start-IsConsistent w s)) marked.unready
          (marked.stall o))

  conditions_transient :
      outcome ≡ failed_transient
      → verdict w.conditions final.status.conditions ≡ expected_verdict failed_transient
  conditions_transient o =
      let marked = coherent.failure (ap is_failure o) in
      subst (λ cs. verdict w.conditions cs ≡ expected_verdict failed_transient)
        (sym (final-conditions (λ e. cc)))
        (verdict_transient w s _ marked.unready (marked.transient o) (marked.progress o))

  -- After an attempt and its commit the conditions Ready, Stalled and Reconciling are those of the
  -- outcome, whatever they were before and wherever the attempt ended: Ready=True alone on success or
  -- no-op, Ready=False and Stalled=True after a stalled failure, and Ready=False and Reconciling=True
  -- after a transient one.
  pub attempt_and_commit_verdict :
      verdict w.conditions final.status.conditions ≡ expected_verdict outcome
  attempt_and_commit_verdict = elim (outcome_cases outcome) [
    | inl (inl idle) ↦ conditions_idle idle ∙ sym (ap expected_verdict idle)
    | inl (inr good) ↦ conditions_applied good ∙ expected_applied outcome good
    | inr (inl o) ↦ conditions_stalled o ∙ sym (ap expected_verdict o)
    | inr (inr o) ↦ conditions_transient o ∙ sym (ap expected_verdict o)
  ]
