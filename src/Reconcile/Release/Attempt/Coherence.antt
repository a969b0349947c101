-- ===== src/Reconcile/Release/Attempt/Coherence.antt =====
-- The body of ReconcileRelease of internal/reconcile/release.go: what it leaves in memory for the
-- deferred commit, on every path.
use poc_controller.Prelude.{
  String, Bool, true, false, ◌≡◌, ◌≢◌, refl, ap, ◌∙◌, subst, some, List, [], ◌∷◌, arith,
}
use poc_controller.Api.{Release, ReleaseStatus, Condition, is_true, is_false}
use poc_controller.Status.Conditions.{
  condition, ready_condition, stalled_condition, reconciling_condition, mark_stalled,
  mark_not_ready, clear_drifted,
}
use poc_controller.Status.Conditions.Laws.{
  MarkCall, stalled, not_ready, undrifted, run_mark, run_marks, IsConsistent, run_mark-IsConsistent,
}
use poc_controller.Status.Digests.{DigestSet, is_no_op}
use poc_controller.Reconcile.Outcome.{
  Outcome, PhaseOutcomes, no_op, applied, applied_and_pruned, failed_transient, failed_stalled,
  is_failure,
}
use poc_controller.Reconcile.World.{World, St}
use poc_controller.Reconcile.Release.Phases.{PhaseFail}
use poc_controller.Reconcile.Release.Attempt.{Attempt, last_applied, give_up}
use poc_controller.Reconcile.Release.Attempt.Marks.{last_mark, remark, IsFailed}

abbrev pub is_applied : Outcome → Bool
is_applied applied = true
is_applied applied_and_pruned = true
is_applied _ = false

pub failure_not_applied : (o : Outcome) → is_failure o ≡ true → false ≡ is_applied o
failure_not_applied failed_stalled h = refl
failure_not_applied failed_transient h = refl
failure_not_applied _ h = cc

failure_not_no_op : (o : Outcome) → is_failure o ≡ true → o ≢ no_op
failure_not_no_op o h e = ground arith

module _ {C : Type 0} (w : World C) where
  -- Only the conditions and the source metadata of the release may differ.
  pub record IsFrame (rel rel' : Release) : Type 0 where
    pub spec : rel'.spec ≡ rel.spec
    pub metadata : rel'.metadata ≡ rel.metadata
    pub status :
        rel'.status
        ≡ record (rel.status) { conditions = rel'.status.conditions; source = rel'.status.source }

  -- What a failure of an outcome does to the conditions.
  pub record IsMarked (outcome : Outcome) (cs cs' : List Condition) : Type 0 where
    pub keeps : IsConsistent w.conditions cs → IsConsistent w.conditions cs'
    pub unready :
        (c : Condition) × (w.conditions.find ready_condition cs' ≡ some c) × (c.status ≡ is_false)
    pub stall :
        outcome ≡ failed_stalled
        → (c : Condition) × (w.conditions.find stalled_condition cs' ≡ some c)
          × (c.status ≡ is_true)
    pub transient :
        outcome ≡ failed_transient
        → w.conditions.find stalled_condition cs' ≡ w.conditions.find stalled_condition cs
    pub progress :
        outcome ≡ failed_transient
        → w.conditions.find reconciling_condition cs' ≡ w.conditions.find reconciling_condition cs

  -- How the body ends, from the release and the cluster that a stage starts with.
  pub record IsCoherent (rel : Release) (c : C) (a : Attempt C) : Type 0 where
    pub frame : IsFrame rel a.state.rel
    pub keeps :
        IsConsistent w.conditions rel.status.conditions
        → IsConsistent w.conditions a.state.rel.status.conditions
    pub reconciled : a.locals.reconciled ≡ is_applied a.locals.outcome
    pub skipped : a.locals.outcome ≡ no_op → is_no_op a.locals.digests (last_applied w rel) ≡ true
    pub failure :
        is_failure a.locals.outcome ≡ true
        → IsMarked a.locals.outcome rel.status.conditions a.state.rel.status.conditions
    pub success :
        is_applied a.locals.outcome ≡ true
        → (r : Condition) × (w.conditions.find ready_condition a.state.rel.status.conditions
            ≡ some r)
          × (r.status ≡ is_true)
    pub delay : is_failure a.locals.outcome ≡ true → a.requeue_after ≡ a.locals.retry_after
    pub no_delay : is_failure a.locals.outcome ≡ false → a.locals.retry_after ≡ 0
    pub quiet : a.locals.phases.apply_ran ≡ false → a.state.cluster ≡ c

  pub IsMarked-last_mark :
      (outcome : Outcome) (r m : String) (cs : List Condition)
      → IsMarked outcome cs (run_mark w.conditions (last_mark outcome r m) cs)
  unfolding run_mark mark_stalled mark_not_ready
  IsMarked-last_mark failed_stalled r m cs = record {
    keeps = run_mark-IsConsistent w.conditions (stalled r m) cs;
    unready = (condition ready_condition is_false r m, simp (w.conditions.find-mark), refl);
    stall = λ e. (
      condition stalled_condition is_true r m,
      simp (w.conditions.find-mark, w.conditions.find-mark_stalled),
      refl,
    );
    transient = λ e. cc;
    progress = λ e. cc;
  }
  IsMarked-last_mark o r m cs = record {
    keeps = run_mark-IsConsistent w.conditions (not_ready r m) cs;
    unready = (condition ready_condition is_false r m, simp (w.conditions.find-mark), refl);
    stall = λ e. absurd (cc);
    transient = λ e. simp (w.conditions.find-mark);
    progress = λ e. simp (w.conditions.find-mark);
  }

  pub IsFrame-refl : (rel : Release) → IsFrame rel rel
  IsFrame-refl rel = record { spec = refl; metadata = refl; status = refl }

  pub IsFrame-trans : (a b c : Release) → IsFrame a b → IsFrame b c → IsFrame a c
  IsFrame-trans a b c f g = record {
    spec = g.spec ∙ f.spec;
    metadata = g.metadata ∙ f.metadata;
    status =
        g.status
        ∙ ap
            (λ (t : ReleaseStatus). record t {
              conditions = c.status.conditions;
              source = c.status.source;
            })
            f.status;
  }

  pub IsFrame-remark : (calls : List MarkCall) (rel : Release) → IsFrame rel (remark w calls rel)
  IsFrame-remark calls rel = record { spec = refl; metadata = refl; status = refl }

  -- A phase that fails with the release marked by its outcome ends coherently.
  pub IsCoherent-give_up :
      (f : PhaseFail) (d : DigestSet) (ph : PhaseOutcomes) (rel : Release) (c : C) (s' : St C)
      → is_failure f.outcome ≡ true
      → IsFrame rel s'.rel
      → IsMarked f.outcome rel.status.conditions s'.rel.status.conditions
      → (ph.apply_ran ≡ false → s'.cluster ≡ c)
      → IsCoherent rel c (give_up w f d ph s')
  unfolding give_up
  IsCoherent-give_up f d ph rel c s' bad frame marked quiet = record {
    frame = frame;
    keeps = marked.keeps;
    reconciled = failure_not_applied f.outcome bad;
    skipped = λ e. absurd (failure_not_no_op f.outcome bad e);
    failure = λ _. marked;
    success = λ e. cc (failure_not_applied f.outcome bad);
    delay = λ _. refl;
    no_delay = λ e. cc;
    quiet = quiet;
  }

  -- The early phases leave the cluster alone, so the outcome of a later one stands for them.
  pub IsCoherent-failed :
      (f : PhaseFail) (d : DigestSet) (ph : PhaseOutcomes) (s s' : St C)
      → IsFailed w f s s'
      → IsCoherent s.rel s.cluster (give_up w f d ph s')
  unfolding run_marks
  IsCoherent-failed f d ph s s' (bad, (r, m, eq), same) =
      IsCoherent-give_up f d ph s.rel s.cluster s' bad
        (rw eq (IsFrame-remark (last_mark f.outcome r m ∷ []) s.rel))
        (rw eq (IsMarked-last_mark f.outcome r m s.rel.status.conditions)) (λ _. same)

  -- A stage starts from the release and the cluster that the stage before it was given.
  pub IsCoherent-after :
      (s s' : St C) (a : Attempt C)
      → s'.rel ≡ s.rel
      → s'.cluster ≡ s.cluster
      → IsCoherent s'.rel s'.cluster a
      → IsCoherent s.rel s.cluster a
  IsCoherent-after s s' a e k h =
      subst (λ r. IsCoherent r s.cluster a) e (subst (λ c. IsCoherent s'.rel c a) k h)

  pub IsMarked-undrifted :
      (o : Outcome) (cs cs' : List Condition)
      → IsMarked o (run_mark w.conditions undrifted cs) cs'
      → IsMarked o cs cs'
  unfolding run_mark clear_drifted
  IsMarked-undrifted o cs cs' h = record {
    keeps = λ k. h.keeps (run_mark-IsConsistent w.conditions undrifted cs k);
    unready = h.unready;
    stall = h.stall;
    transient = λ e. h.transient e ∙ simp w.conditions.find-delete;
    progress = λ e. h.progress e ∙ simp w.conditions.find-delete;
  }
