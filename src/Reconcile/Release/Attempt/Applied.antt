-- ===== src/Reconcile/Release/Attempt/Applied.antt =====
-- applyAndPruneRelease of internal/reconcile/release.go: the two ways in which it may end.
use poc_controller.Prelude.{
  String, true, false, ◌&&◌, ◌≡◌, ◌⊎◌, inl, inr, refl, List, [], ◌∷◌, ◌^^◌, Result, ok, err, ltb,
  length, Bool-cases, Option-cases, Result-cases, arith,
}
use poc_controller.Api.{Release, InventoryEntry}
use poc_controller.Core.{Unstructured}
use poc_controller.Inventory.{compute_stale_set}
use poc_controller.Apply.Ssa.{ResourceManager, ApplyResult}
use poc_controller.Apply.Prune
use poc_controller.Apply.Prune.{Client}
use poc_controller.Status.Conditions.{mark_stalled, mark_not_ready, clear_drifted}
use poc_controller.Status.Conditions.Laws.{undrifted, run_mark, run_marks}
use poc_controller.Reconcile.Outcome.{
  PhaseOutcomes, no_phases, applied, applied_and_pruned, failed_transient, failed_stalled,
  is_failure,
}
use poc_controller.Reconcile.World.{World, St, RenderResult, normal, event, call, mark}
use poc_controller.Reconcile.Release.Identity.{build_release_apply_client}
use poc_controller.Reconcile.Release.Phases.{
  PhaseFail, Phase, done, failed, stall, retry, to_unstructured_slice,
}
use poc_controller.Reconcile.Release.Applying.{
  ApplyPruneResult, release_backoff, prune_phase, after_apply, apply_phase, apply_and_prune_release,
  inventory_entries,
}
use poc_controller.Reconcile.Release.Attempt.Marks.{last_mark, remark}
use poc_controller.Reconcile.Release.Attempt.Coherence.{
  is_applied, IsFrame, IsMarked, IsMarked-last_mark, IsFrame-refl, IsFrame-trans, IsFrame-remark,
  IsMarked-undrifted,
}

module _ {C : Type 0} (w : World C) where
  -- The two ways in which the apply and the prune may end.
  abbrev pub ApplySpec : Release → C → Phase ApplyPruneResult × PhaseOutcomes × St C → Type 0
  ApplySpec rel c r =
      ((a : ApplyPruneResult) × (r.0 ≡ done a)
        × (is_applied a.outcome ≡ true)
        × (IsFrame w rel r.2.rel)
        × (r.1.apply_ran ≡ true))
      ⊎ ((f : PhaseFail) × (r.0 ≡ failed f)
          × (is_failure f.outcome ≡ true)
          × (IsFrame w rel r.2.rel)
          × (IsMarked w f.outcome rel.status.conditions r.2.rel.status.conditions)
          × (r.1.apply_ran ≡ false → r.2.cluster ≡ c))

  abbrev pruned : RenderResult → ApplyPruneResult
  pruned result = record { outcome = applied_and_pruned; entries = result.inventory_entries }

  prune_phase-Spec :
      (client : Client C) (result : RenderResult) (stale : List InventoryEntry) (ph : PhaseOutcomes)
      (c : C) (s : St C)
      → ph.apply_ran ≡ true
      → ApplySpec s.rel c (prune_phase w client result stale ph s)
  unfolding prune_phase mark call run_mark run_marks mark_not_ready
  prune_phase-Spec client result stale ph c s ran =
      elim (Bool-cases (s.rel.spec.prune && ltb 0 (length stale))) [
        | inr off ↦
            rw (off, prune_phase)
              (inl (
                record { outcome = applied; entries = result.inventory_entries },
                refl,
                refl,
                IsFrame-refl w s.rel,
                ran,
              ))
        | inl on ↦ elim (Option-cases (Prune.prune client "" stale s.cluster).1) [
          | inl fine ↦ elim (Bool-cases (ltb 0 (Prune.prune client "" stale s.cluster).0.deleted)) [
            | inl some_gone ↦
                rw (on, fine, some_gone, prune_phase)
                  (inl (pruned result, refl, refl, IsFrame-refl w s.rel, ran))
            | inr none_gone ↦
                rw (on, fine, none_gone, prune_phase)
                  (inl (pruned result, refl, refl, IsFrame-refl w s.rel, ran))
          ]
          | inr (x, bad) ↦
              rw (on, bad, prune_phase)
                (inr (
                  retry x.msg (release_backoff w s.rel),
                  refl,
                  refl,
                  IsFrame-remark w (last_mark failed_transient "PruneFailed" x.msg ∷ []) s.rel,
                  IsMarked-last_mark w failed_transient "PruneFailed" x.msg s.rel.status.conditions,
                  λ e. cc,
                ))
        ]
      ]

  -- The same after the drift has been cleared.
  ApplySpec-undrifted :
      (rel : Release) (c c' : C) (r : Phase ApplyPruneResult × PhaseOutcomes × St C)
      → ApplySpec (remark w (undrifted ∷ []) rel) c' r
      → (r.1.apply_ran ≡ false → r.2.cluster ≡ c)
      → ApplySpec rel c r
  unfolding run_marks
  ApplySpec-undrifted rel c c' r (inl (a, e, good, frame, ran)) q =
      inl (a, e, good, IsFrame-trans w _ _ _ (IsFrame-remark w (undrifted ∷ []) rel) frame, ran)
  ApplySpec-undrifted rel c c' r (inr (f, e, bad, frame, marked, _)) q = inr (
    f,
    e,
    bad,
    IsFrame-trans w _ _ _ (IsFrame-remark w (undrifted ∷ []) rel) frame,
    IsMarked-undrifted w f.outcome rel.status.conditions _ marked,
    q,
  )

  prune_phase-ran :
      (client : Client C) (result : RenderResult) (stale : List InventoryEntry) (ph : PhaseOutcomes)
      (s : St C)
      → (prune_phase w client result stale ph s).1.apply_ran ≡ ph.apply_ran
  unfolding prune_phase
  prune_phase-ran client result stale ph s = ground arith

  after_apply-Spec :
      (client : Client C) (result : RenderResult) (stale : List InventoryEntry) (ph : PhaseOutcomes)
      (answer : Result ApplyResult) (c : C) (s : St C)
      → ph.apply_ran ≡ true
      → ApplySpec s.rel c (after_apply w client result stale ph answer s)
  unfolding after_apply mark call run_mark run_marks mark_not_ready clear_drifted
  after_apply-Spec client result stale ph (err e) c s ran = inr (
    retry e.msg (release_backoff w s.rel),
    refl,
    refl,
    IsFrame-remark w (last_mark failed_transient "ApplyFailed" e.msg ∷ []) s.rel,
    IsMarked-last_mark w failed_transient "ApplyFailed" e.msg s.rel.status.conditions,
    λ e. cc,
  )
  after_apply-Spec client result stale ph (ok a) c s ran =
      ApplySpec-undrifted s.rel c c
        (prune_phase w client result stale (record ph { prune_ran = true })
          (mark (clear_drifted w.conditions) (call (event normal "Applied" "Apply") s)))
        (prune_phase-Spec client result stale (record ph { prune_ran = true }) c
          (mark (clear_drifted w.conditions) (call (event normal "Applied" "Apply") s)) ran)
        (λ e. cc (
          prune_phase-ran client result stale (record ph { prune_ran = true })
            (mark (clear_drifted w.conditions) (call (event normal "Applied" "Apply") s))))

  apply_phase-Spec :
      (rm : ResourceManager C) (client : Client C) (result : RenderResult) (rs : List Unstructured)
      (stale : List InventoryEntry) (s : St C)
      → ApplySpec s.rel s.cluster (apply_phase w rm client result rs stale s)
  unfolding apply_phase call
  apply_phase-Spec rm client result rs stale s =
      after_apply-Spec client result stale _ _ s.cluster _ refl

  pub apply_and_prune_release-Spec :
      (result : RenderResult) (s : St C)
      → ApplySpec s.rel s.cluster (apply_and_prune_release w result s)
  unfolding apply_and_prune_release mark run_mark run_marks mark_stalled
  apply_and_prune_release-Spec result s =
      elim (Result-cases (to_unstructured_slice result.resources)) [
        | inr (x, e) ↦
            rw (e, apply_and_prune_release)
              (stalled_spec "ApplyFailed" ("converting resources: " ^^ x.msg) x.msg)
        | inl (rs, e) ↦ elim (Result-cases (build_release_apply_client w s.rel)) [
          | inr (x, e') ↦
              rw (e, e', apply_and_prune_release) (stalled_spec "ImpersonationFailed" x.msg x.msg)
          | inl ((rm, client), e') ↦
              rw (e, e', apply_and_prune_release)
                (apply_phase-Spec rm client result rs
                  (compute_stale_set (inventory_entries s.rel.status.inventory)
                    result.inventory_entries)
                  s)
        ]
      ]
    where
      stalled_spec :
          (r m msg : String)
          → ApplySpec s.rel s.cluster
              (failed (stall msg), no_phases, mark (mark_stalled w.conditions r m) s)
      stalled_spec r m msg = inr (
        stall msg,
        refl,
        refl,
        IsFrame-remark w (last_mark failed_stalled r m ∷ []) s.rel,
        IsMarked-last_mark w failed_stalled r m s.rel.status.conditions,
        λ e. refl,
      )
