-- ===== src/Reconcile/Release/Attempt/Stages.antt =====
-- The stages of ReconcileRelease in internal/reconcile/release.go end coherently, the last one first.
use poc_controller.Prelude.{
  ℕ, String, true, false, ◌≡◌, ◌≢◌, inl, inr, refl, sym, [], ◌∷◌, Bool-cases, arith,
}
use poc_controller.Api.{Release, is_true}
use poc_controller.Status.Conditions.{condition, ready_condition, mark_ready, mark_reconciling}
use poc_controller.Status.Conditions.Laws.{reconciling, run_mark, run_marks, IsConsistent-ready}
use poc_controller.Status.Digests.{DigestSet, is_no_op}
use poc_controller.Source.{ArtifactRef}
use poc_controller.Reconcile.Outcome.{Outcome, PhaseOutcomes, no_phases, no_op, is_failure}
use poc_controller.Reconcile.World.{World, St, RenderResult, call, mark}
use poc_controller.Reconcile.Release.Phases.{
  Phase, done, failed, resolve_release_source, fetch_release_artifact, navigate_release_path,
  render_release_package,
}
use poc_controller.Reconcile.Release.Applying.{ApplyPruneResult, apply_and_prune_release}
use poc_controller.Reconcile.Release.Attempt.{
  Attempt, last_applied, and_then, conclude, set_source, no_op_stage, digest_stage, render_stage,
  navigate_stage, clean_up, fetch_stage, attempt, compute_release_digests, no_digests,
}
use poc_controller.Reconcile.Release.Attempt.Marks.{
  remark, Spec, resolve_release_source-Spec, fetch_release_artifact-Spec,
  navigate_release_path-Spec, render_release_package-Spec, compute_release_digests-Spec,
}
use poc_controller.Reconcile.Release.Attempt.Coherence.{
  is_applied, IsCoherent, IsFrame-refl, IsFrame-trans, IsCoherent-give_up, IsCoherent-failed,
  IsCoherent-after,
}
use poc_controller.Reconcile.Release.Attempt.Applied.{ApplySpec, apply_and_prune_release-Spec}

applied_not_failure : (o : Outcome) → is_applied o ≡ true → is_failure o ≡ false
applied_not_failure o h = ground arith

applied_not_no_op : (o : Outcome) → is_applied o ≡ true → o ≢ no_op
applied_not_no_op o h e = ground arith

module _ {C : Type 0} (w : World C) where
  IsCoherent-conclude :
      (interval : ℕ) (d : DigestSet) (rel : Release) (c : C)
      (r : Phase ApplyPruneResult × PhaseOutcomes × St C)
      → ApplySpec w rel c r
      → IsCoherent w rel c (conclude w interval d r)
  unfolding conclude mark call
  IsCoherent-conclude interval d rel c (failed f, ph, s) (inl (a, e, _, _, _)) = cc
  IsCoherent-conclude interval d rel c (failed f, ph, s) (inr (g, e, bad, frame, marked, quiet)) =
      let same : g ≡ f = cc in
      IsCoherent-give_up w f d ph rel c s (rw same at bad) frame (rw same at marked) quiet
  IsCoherent-conclude interval d rel c (done a, ph, s) (inr (g, e, _, _, _, _)) = cc
  IsCoherent-conclude interval d rel c (done a, ph, s) (inl (b, e, good, frame, ran)) =
      let same : b ≡ a = cc in
      let fine : is_applied a.outcome ≡ true = rw same at good in
      record {
        frame =
            IsFrame-trans w rel s.rel _ frame
              (record { spec = refl; metadata = refl; status = refl });
        keeps = λ _.
            unfold run_mark in
            IsConsistent-ready w.conditions "Reconciliation succeeded" s.rel.status.conditions;
        reconciled = sym fine;
        skipped = λ h. absurd (applied_not_no_op a.outcome fine h);
        failure = λ h. cc (applied_not_failure a.outcome fine);
        success = λ _. (
          condition ready_condition is_true "ReconciliationSucceeded" "Reconciliation succeeded",
          unfold mark_ready in simp w.conditions.find-mark,
          refl,
        );
        delay = λ h. cc (applied_not_failure a.outcome fine);
        no_delay = λ _. refl;
        quiet = λ h. cc;
      }

  IsCoherent-no_op_stage :
      (interval : ℕ) (d : DigestSet) (result : RenderResult) (s : St C)
      → IsCoherent w s.rel s.cluster (no_op_stage w interval d result s)
  unfolding no_op_stage call
  IsCoherent-no_op_stage interval d result s =
      elim (Bool-cases (is_no_op d (last_applied w s.rel))) [
        | inr work ↦
            rw (work, no_op_stage)
              (IsCoherent-conclude interval d s.rel s.cluster (apply_and_prune_release w result s)
                (apply_and_prune_release-Spec w result s))
        | inl idle ↦
            rw (idle, no_op_stage)
              (record {
                frame = IsFrame-refl w s.rel;
                keeps = λ h. h;
                reconciled = refl;
                skipped = λ _. idle;
                failure = λ h. cc;
                success = λ h. cc;
                delay = λ h. cc;
                no_delay = λ _. refl;
                quiet = λ _. refl;
              })
      ]

  IsCoherent-and_then :
      {A : Type 0} (s : St C) (r : Phase A × St C) (d : DigestSet) (k : A → St C → Attempt C)
      → Spec w s r
      → ((a : A) (s' : St C) → IsCoherent w s'.rel s'.cluster (k a s'))
      → IsCoherent w s.rel s.cluster (and_then w r d k)
  unfolding and_then
  IsCoherent-and_then s (failed f, s') d k (inl (a, e, _, _)) h = cc
  IsCoherent-and_then s (failed f, s') d k (inr (g, e, bad)) h =
      let same : g ≡ f = cc in IsCoherent-failed w f d no_phases s s' (rw same at bad)
  IsCoherent-and_then s (done a, s') d k (inr (g, e, _)) h = cc
  IsCoherent-and_then s (done a, s') d k (inl (b, e, rel_same, cluster_same)) h =
      IsCoherent-after w s s' (k a s') rel_same cluster_same (h a s')

  IsCoherent-clean_up :
      (dir : String) (rel : Release) (c : C) (a : Attempt C)
      → IsCoherent w rel c a
      → IsCoherent w rel c (clean_up w dir a)
  unfolding call
  IsCoherent-clean_up dir rel c a h = record {
    frame = h.frame;
    keeps = h.keeps;
    reconciled = h.reconciled;
    skipped = h.skipped;
    failure = h.failure;
    success = h.success;
    delay = h.delay;
    no_delay = h.no_delay;
    quiet = h.quiet;
  }

  IsCoherent-set_source :
      (ref : ArtifactRef) (s : St C) (a : Attempt C)
      → IsCoherent w (set_source w ref s).rel s.cluster a
      → IsCoherent w s.rel s.cluster a
  IsCoherent-set_source ref s a h = record {
    frame =
        IsFrame-trans w s.rel (set_source w ref s).rel _
          (record { spec = refl; metadata = refl; status = refl }) h.frame;
    keeps = h.keeps;
    reconciled = h.reconciled;
    skipped = h.skipped;
    failure = h.failure;
    success = h.success;
    delay = h.delay;
    no_delay = h.no_delay;
    quiet = h.quiet;
  }

  IsCoherent-fetch_stage :
      (interval : ℕ) (ref : ArtifactRef) (d : DigestSet) (s : St C)
      → IsCoherent w s.rel s.cluster (fetch_stage w interval ref d s)
  unfolding fetch_stage navigate_stage render_stage digest_stage
  IsCoherent-fetch_stage interval ref d s =
      IsCoherent-and_then s (fetch_release_artifact w ref interval s) d _
        (fetch_release_artifact-Spec w ref interval s)
        λ dir s1. IsCoherent-clean_up dir s1.rel s1.cluster (navigate_stage w interval d dir s1) (
          IsCoherent-and_then s1 (navigate_release_path w dir s1) d _
            (navigate_release_path-Spec w dir s1)
            λ package_dir s2.
              IsCoherent-and_then s2 (render_release_package w package_dir s2) d _
                (render_release_package-Spec w package_dir s2)
                λ result s3.
                  IsCoherent-and_then s3 (compute_release_digests w result d s3) d _
                    (compute_release_digests-Spec w result d s3)
                    λ d' s4. IsCoherent-no_op_stage interval d' result s4)

  -- From the first Mark call on, the body ends coherently.
  pub IsCoherent-attempt :
      (interval : ℕ) (s : St C)
      → IsCoherent w
          (remark w (reconciling "Progressing" "Reconciliation in progress" ∷ []) s.rel)
          s.cluster
          (attempt w interval s)
  unfolding attempt mark run_mark run_marks
  IsCoherent-attempt interval s =
      let s0 : St C =
        mark (mark_reconciling w.conditions "Progressing" "Reconciliation in progress") s in
      IsCoherent-and_then s0 (resolve_release_source w interval s0) no_digests _
        (resolve_release_source-Spec w interval s0)
        λ ref s1. IsCoherent-set_source ref s1 _ (
          IsCoherent-fetch_stage interval ref (record (no_digests) { source = ref.digest })
            (set_source w ref s1))
