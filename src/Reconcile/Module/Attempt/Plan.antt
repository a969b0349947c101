-- ===== src/Reconcile/Module/Attempt/Plan.antt =====
-- The body of ReconcileModuleRelease of internal/reconcile/modulerelease.go: when it gets to the plan,
-- and what it does then.
use poc_controller.Prelude.{
  if_both, ◌⊎◌, ℕ, String, Bool, true, false, ◌≡◌, ◌≢◌, inl, inr, refl, sym, subst, ◌∙◌, List, [],
  Result-cases, ok, err, Error, arith,
}
use poc_controller.Api.{ModuleRelease, InventoryEntry}
use poc_controller.Core.{Unstructured}
use poc_controller.Inventory.{compute_digest}
use poc_controller.Status.Digests.{DigestSet, is_no_op, render_digest}
use poc_controller.Apply.Ssa
use poc_controller.Apply.Ssa.{ResourceManager}
use poc_controller.Apply.Prune.{Client}
use poc_controller.Reconcile.Outcome.{
  Outcome, PhaseOutcomes, no_op, failed_stalled, failed_transient, is_failure,
}
use poc_controller.Reconcile.World.{RenderResult}
use poc_controller.Reconcile.Release.Applying.{force_conflicts}
use poc_controller.Reconcile.Release.Phases.{to_unstructured_slice}
use poc_controller.Reconcile.Release.Attempt.Coherence.{is_applied}
use poc_controller.Reconcile.Module.World.{ModuleWorld, ModuleState, emit, annotate}
use poc_controller.Reconcile.Module.Applying.{
  StalePrune, detect_module_drift, fail_prune, prune_stale_resources, build_apply_client,
}
use poc_controller.Reconcile.Module.Attempt.{
  ModuleAttempt, end_failed, conclude_module, fail_apply, apply_module, start_apply, set_uuid,
  plan_module, convert_module, digest_module, module_attempt, early_digests, last_module_digests,
}

module _ {C : Type 0} (w : ModuleWorld C) where
  -- The digests of a rendered module.
  abbrev pub all_digests : ModuleRelease → RenderResult → String → DigestSet
  all_digests mr result digest = record (early_digests w mr) {
    render = digest;
    inventory = compute_digest w.encoding result.inventory_entries;
  }

  -- The module renders, and its resources have a digest and are objects.
  pub record IsRendered (mr : ModuleRelease) (result : RenderResult) (digest : String)
      : Type 0 where
    pub rendered :
        w.render_module mr.metadata.name mr.metadata.namespace mr.spec.module_ref mr.spec.values
        ≡ ok result
    pub digested : render_digest w.encoding result.resources ≡ ok digest
    pub resources : List Unstructured
    pub converted : to_unstructured_slice result.resources ≡ ok resources

  -- An attempt that does nothing to the cluster.
  pub record IsUntouched (c : C) (a : ModuleAttempt C) : Type 0 where
    pub outcome : a.locals.outcome ≡ no_op
    pub cluster : a.state.cluster ≡ c
    pub delay : a.requeue_after ≡ 0

  -- An attempt with the digests `ds` that fails, or applies the objects `es`.
  pub record IsBusy (ds : DigestSet) (es : List InventoryEntry) (a : ModuleAttempt C) : Type 0 where
    pub outcome : a.locals.outcome ≢ no_op
    pub digests : a.locals.digests ≡ ds
    pub entries : is_applied a.locals.outcome ≡ true → a.locals.new_entries ≡ es

  failure_busy : (o : Outcome) → is_failure o ≡ true → o ≢ no_op
  failure_busy o h e = ground (arith)

  IsBusy-end_failed :
      (outcome : Outcome) (msg : String) (delay : ℕ) (ds : DigestSet) (es new : List InventoryEntry)
      (ph : PhaseOutcomes) (s : ModuleState C)
      → is_failure outcome ≡ true
      → IsBusy ds es (end_failed w outcome msg delay ds new ph s)
  IsBusy-end_failed outcome msg delay ds es new ph s h = record {
    outcome = failure_busy outcome h;
    digests = refl;
    entries = λ e. absurd (not_both outcome h e);
  }
    where
      not_both : (o : Outcome) → is_failure o ≡ true → is_applied o ≢ true
      not_both o h e = ground (arith)

  conclude_module-outcome :
      (ds : DigestSet) (es : List InventoryEntry) (ph : PhaseOutcomes)
      (r : StalePrune × ModuleState C)
      → ((conclude_module w ds es ph r).locals.outcome ≡ r.0.outcome)
        × ((conclude_module w ds es ph r).locals.digests ≡ ds)
        × ((conclude_module w ds es ph r).locals.new_entries ≡ es)
  unfolding conclude_module
  conclude_module-outcome ds es ph r = ground (arith)

  prune_stale_resources-outcome :
      (client : Client C) (stale : List InventoryEntry) (sa : String) (s : ModuleState C)
      → (prune_stale_resources w client stale sa s).0.outcome ≢ no_op
  unfolding prune_stale_resources fail_prune
  prune_stale_resources-outcome client stale sa s = λ e. ground (arith, e)

  IsBusy-fail_apply :
      (sa : String) (e : Error) (ds : DigestSet) (es : List InventoryEntry) (ph : PhaseOutcomes)
      (s : ModuleState C)
      → IsBusy ds es (fail_apply w sa e ds ph s)
  unfolding fail_apply
  IsBusy-fail_apply sa e ds es ph s =
      if_both (IsBusy ds es) _ (IsBusy-end_failed failed_stalled e.msg _ ds es [] ph _ refl)
        (IsBusy-end_failed failed_transient e.msg _ ds es [] ph _ refl)

  IsBusy-apply_module :
      (rm : ResourceManager C) (client : Client C) (result : RenderResult)
      (resources : List Unstructured) (stale : List InventoryEntry) (ds : DigestSet)
      (ph : PhaseOutcomes) (s : ModuleState C)
      → IsBusy ds result.inventory_entries (apply_module w rm client result resources stale ds ph s)
  unfolding apply_module
  IsBusy-apply_module rm client result resources stale ds ph s =
      elim (Result-cases (Ssa.apply rm resources (force_conflicts s.mr.spec.rollout) s.cluster).0) [
        | inl (counts, e) ↦ rw (e, apply_module) (concluded _ _ _)
        | inr (x, e) ↦ rw (e, apply_module) (IsBusy-fail_apply _ x ds _ _ _)
      ]
    where
      concluded :
          (ph : PhaseOutcomes) (sa : String) (t : ModuleState C)
          → IsBusy ds result.inventory_entries (
              conclude_module w ds result.inventory_entries ph
                (prune_stale_resources w client stale sa t))
      concluded ph sa t =
          let r = prune_stale_resources w client stale sa t in
          let (o, d, n) = conclude_module-outcome ds result.inventory_entries ph r in
          record {
            outcome = λ e. prune_stale_resources-outcome client stale sa t (sym o ∙ e);
            digests = d;
            entries = λ e. n;
          }

  IsBusy-start_apply :
      (result : RenderResult) (resources : List Unstructured) (ds : DigestSet) (ph : PhaseOutcomes)
      (s : ModuleState C)
      → IsBusy ds result.inventory_entries (start_apply w result resources ds ph s)
  unfolding start_apply
  IsBusy-start_apply result resources ds ph s = elim (Result-cases (build_apply_client w s.mr)) [
    | inl ((rm, client), e) ↦
        rw (e, start_apply) (IsBusy-apply_module rm client result resources _ ds _ s)
    | inr (x, e) ↦ rw (e, start_apply) (IsBusy-end_failed failed_stalled x.msg _ ds _ [] ph _ refl)
  ]

  -- How the plan goes on: with nothing, if the digests are the last ones, or with an apply.
  unfoldable pub IsPlanned : Bool → C → DigestSet → List InventoryEntry → ModuleAttempt C → Type 0
  IsPlanned true c ds es a = IsUntouched c a
  IsPlanned false c ds es a = IsBusy ds es a

  pub planned_cases :
      (idle : Bool) (c : C) (ds : DigestSet) (es : List InventoryEntry) (a : ModuleAttempt C)
      → IsPlanned idle c ds es a
      → ((idle ≡ true) × IsUntouched c a) ⊎ ((idle ≡ false) × IsBusy ds es a)
  unfolding IsPlanned
  planned_cases true c ds es a h = inl (refl, h)
  planned_cases false c ds es a h = inr (refl, h)

  IsPlanned-plan_module :
      (idle : Bool) (result : RenderResult) (resources : List Unstructured) (ds : DigestSet)
      (r : Bool × ModuleState C)
      → IsPlanned idle r.1.cluster ds result.inventory_entries
          (plan_module w idle result resources ds r)
  unfolding plan_module IsPlanned emit
  IsPlanned-plan_module true result resources ds (bad, s) = record {
    outcome = refl;
    cluster = refl;
    delay = refl;
  }
  IsPlanned-plan_module false result resources ds (bad, s) =
      IsBusy-start_apply result resources ds _ s

  detect_module_drift-cluster :
      (resources : List Unstructured) (s : ModuleState C)
      → (detect_module_drift w resources s).1.cluster ≡ s.cluster
  unfolding detect_module_drift annotate
  detect_module_drift-cluster resources s = ground (arith)

  set_uuid-cluster :
      (resources : List Unstructured) (s : ModuleState C)
      → (set_uuid w resources s).cluster ≡ s.cluster
  set_uuid-cluster resources s = ground (arith)

  set_uuid-last :
      (resources : List Unstructured) (s : ModuleState C)
      → last_module_digests w (set_uuid w resources s).mr ≡ last_module_digests w s.mr
  set_uuid-last resources s = ground (arith)

  -- How an attempt at a release ends: before the plan, with a failure and because the module gives no
  -- objects to plan with, or with the plan.
  pub data IsEnded (mr : ModuleRelease) (c : C) : ModuleAttempt C → Type 0 where
    stopped :
        (a : ModuleAttempt C)
        → is_failure a.locals.outcome ≡ true
        → ((result : RenderResult) (digest : String) → ¬ IsRendered mr result digest)
        → IsEnded mr c a
    planned :
        (a : ModuleAttempt C) (result : RenderResult) (digest : String)
        → IsRendered mr result digest
        → IsPlanned
            (is_no_op (all_digests mr result digest) (last_module_digests w mr))
            c
            (all_digests mr result digest)
            result.inventory_entries
            a
        → IsEnded mr c a

  -- A state that has the spec, the metadata, the last digests and the cluster of another one.
  record IsAt (mr : ModuleRelease) (c : C) (s : ModuleState C) : Type 0 where
    last_same : last_module_digests w s.mr ≡ last_module_digests w mr
    cluster : s.cluster ≡ c

  IsEnded-convert_module :
      (mr : ModuleRelease) (c : C) (result : RenderResult) (digest : String) (s : ModuleState C)
      → w.render_module mr.metadata.name mr.metadata.namespace mr.spec.module_ref mr.spec.values
        ≡ ok result
      → render_digest w.encoding result.resources ≡ ok digest
      → IsAt mr c s
      → IsEnded mr c (convert_module w result (all_digests mr result digest) s)
  unfolding convert_module
  IsEnded-convert_module mr c result digest s rendered digested at =
      let ds = all_digests mr result digest in
      elim (Result-cases (to_unstructured_slice result.resources)) [
        | inl (resources, e) ↦
            let s1 = set_uuid w resources s in
            let r = detect_module_drift w resources s1 in
            let same_cluster : r.1.cluster ≡ c =
              detect_module_drift-cluster resources s1
              ∙ set_uuid-cluster resources s
              ∙ at.cluster in
            let same_last : last_module_digests w s1.mr ≡ last_module_digests w mr =
              set_uuid-last resources s ∙ at.last_same in
            rw (e, convert_module)
              (planned _ result digest
                (record {
                  rendered = rendered;
                  digested = digested;
                  resources = resources;
                  converted = e;
                })
                (subst
                  (λ last. IsPlanned (is_no_op ds last) c ds result.inventory_entries (
                    plan_module w (is_no_op ds (last_module_digests w s1.mr)) result resources ds
                      r))
                  same_last
                  (subst
                    (λ k.
                      IsPlanned (is_no_op ds (last_module_digests w s1.mr)) k ds
                        result.inventory_entries
                        (plan_module w (is_no_op ds (last_module_digests w s1.mr)) result resources
                          ds r))
                    same_cluster (IsPlanned-plan_module _ result resources ds r))))
        | inr (x, e) ↦
            rw (e, convert_module)
              (stopped _ refl
                (λ result' digest' h. not_converted (h.rendered) h.resources h.converted e))
      ]
    where
      not_converted :
          {result' : RenderResult} {x : Error}
          → w.render_module mr.metadata.name mr.metadata.namespace mr.spec.module_ref mr.spec.values
            ≡ ok result'
          → (resources : List Unstructured) → to_unstructured_slice result'.resources ≡ ok resources
          → to_unstructured_slice result.resources ≢ err x
      not_converted {result' = result'} again resources e f = let same : result' ≡ result = cc in cc

  IsEnded-digest_module :
      (mr : ModuleRelease) (c : C) (result : RenderResult) (s : ModuleState C)
      → w.render_module mr.metadata.name mr.metadata.namespace mr.spec.module_ref mr.spec.values
        ≡ ok result
      → IsAt mr c s
      → IsEnded mr c (digest_module w result (early_digests w mr) s)
  unfolding digest_module annotate
  IsEnded-digest_module mr c result s rendered at =
      elim (Result-cases (render_digest w.encoding result.resources)) [
        | inl (digest, e) ↦
            rw (e, digest_module)
              (IsEnded-convert_module mr c result digest _ rendered e
                (record { last_same = at.last_same; cluster = at.cluster }))
        | inr (x, e) ↦
            rw (e, digest_module)
              (stopped _ refl (λ result' digest' h. not_digested h.rendered h.digested e))
      ]
    where
      not_digested :
          {result' : RenderResult} {digest' : String} {x : Error}
          → w.render_module mr.metadata.name mr.metadata.namespace mr.spec.module_ref mr.spec.values
            ≡ ok result'
          → render_digest w.encoding result'.resources ≡ ok digest'
          → render_digest w.encoding result.resources ≢ err x
      not_digested {result' = result'} again e f = let same : result' ≡ result = cc in cc

  pub IsEnded-module_attempt : (s : ModuleState C) → IsEnded s.mr s.cluster (module_attempt w s)
  unfolding module_attempt annotate
  IsEnded-module_attempt s =
      elim (Result-cases (
        w.render_module s.mr.metadata.name s.mr.metadata.namespace s.mr.spec.module_ref
          s.mr.spec.values)) [
            | inl (result, e) ↦
                rw (e, module_attempt)
                  (IsEnded-digest_module s.mr s.cluster result _ e
                    (record { last_same = refl; cluster = refl }))
            | inr (x, e) ↦
                rw (e, module_attempt)
                  (stopped _ refl (λ result digest h. not_rendered h.rendered e))
          ]
    where
      not_rendered :
          {result : RenderResult} {x : Error}
          → w.render_module s.mr.metadata.name s.mr.metadata.namespace s.mr.spec.module_ref
              s.mr.spec.values
            ≡ ok result
          → w.render_module s.mr.metadata.name s.mr.metadata.namespace s.mr.spec.module_ref
              s.mr.spec.values
            ≢ err x
      not_rendered e f = cc
