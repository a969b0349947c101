-- ===== src/Reconcile/Release/Loop/Twin.antt =====
-- Two attempts of ReconcileRelease (internal/reconcile/release.go) at the same release in the same
-- world, the second one after the status of the first one was committed.
use poc_controller.Prelude.{
  ℕ, true, false, ◌≡◌, ◌≢◌, inl, inr, refl, sym, ap, subst, ◌∙◌, is_empty, Bool-cases, arith,
}
use poc_controller.Inventory.{compute_digest}
use poc_controller.Status.Digests.{DigestSet, is_no_op}
use poc_controller.Reconcile.Outcome.{Outcome, PhaseOutcomes, no_op, is_failure}
use poc_controller.Reconcile.World.{World, St, RenderResult, call}
use poc_controller.Reconcile.Release.Phases.{PhaseFail, Phase, done, failed}
use poc_controller.Reconcile.Release.Applying.{
  ApplyPruneResult, prune_phase, after_apply, apply_phase, apply_and_prune_release,
}
use poc_controller.Reconcile.Release.Attempt.{
  Attempt, last_applied, give_up, and_then, conclude, apply_stage, no_op_stage,
}
use poc_controller.Reconcile.Release.Attempt.Marks.{Spec}
use poc_controller.Reconcile.Release.Attempt.Coherence.{is_applied}

pub failure_applies_not : (o : Outcome) → is_failure o ≡ true → is_applied o ≢ true
failure_applies_not o h e = ground arith

module _ {C : Type 0} (w : World C) (interval : ℕ) where
  -- What the digests of an attempt that applied are.
  pub record IsDigested (a : Attempt C) : Type 0 where
    pub inventory : a.locals.digests.inventory ≡ compute_digest w.encoding a.locals.new_entries
    pub config_set : is_empty a.locals.digests.config ≡ false
    pub render_set : is_empty a.locals.digests.render ≡ false
    pub inventory_set : is_empty a.locals.digests.inventory ≡ false

  -- An attempt that does nothing.
  pub record IsIdle (c : C) (b : Attempt C) : Type 0 where
    pub outcome : b.locals.outcome ≡ no_op
    pub cluster : b.state.cluster ≡ c
    pub delay : b.requeue_after ≡ interval

  -- If the first attempt applies, the second one is idle where its last digests are the first one's.
  unfoldable pub IsTwin : DigestSet → C → Attempt C → Attempt C → Type 0
  IsTwin last c a b =
      is_applied a.locals.outcome ≡ true
      → IsDigested a × (is_no_op a.locals.digests last ≡ true → IsIdle c b)

  -- Two states from which the phases take the same way.
  pub record IsAlike (last : DigestSet) (c : C) (s t : St C) : Type 0 where
    pub source_ref : t.rel.spec.source_ref ≡ s.rel.spec.source_ref
    pub path : t.rel.spec.path ≡ s.rel.spec.path
    pub namespace : t.rel.metadata.namespace ≡ s.rel.metadata.namespace
    pub last_same : last_applied w t.rel ≡ last
    pub cluster : t.cluster ≡ c

  apply_and_prune-entries :
      (result : RenderResult) (s : St C) (r : ApplyPruneResult)
      → (apply_and_prune_release w result s).0 ≡ done r
      → r.entries ≡ result.inventory_entries
  unfolding apply_and_prune_release apply_phase after_apply prune_phase
  apply_and_prune-entries result s r h = ground (arith, h)

  and_then-Twin :
      {A : Type 0} (last : DigestSet) (c : C) (x y : Phase A × St C) (d : DigestSet)
      (k : A → St C → Attempt C)
      → ((f : PhaseFail) → x.0 ≡ failed f → is_failure f.outcome ≡ true)
      → x.0 ≡ y.0
      → ((a : A) → x.0 ≡ done a → IsTwin last c (k a x.1) (k a y.1))
      → IsTwin last c (and_then w x d k) (and_then w y d k)
  unfolding and_then give_up IsTwin
  and_then-Twin last c (failed f, s) y d k bad same h =
      λ e. absurd (failure_applies_not f.outcome (bad f refl) e)
  and_then-Twin last c (done a, s) (failed g, t) d k bad same h = cc
  and_then-Twin last c (done a, s) (done b, t) d k bad same h =
      subst (λ v. IsTwin last c (k a s) (k v t)) (ground arith) (h a refl)

  apply_and_prune-fails :
      (result : RenderResult) (s : St C) (f : PhaseFail)
      → (apply_and_prune_release w result s).0 ≡ failed f
      → is_failure f.outcome ≡ true
  unfolding apply_and_prune_release apply_phase after_apply prune_phase
  apply_and_prune-fails result s f h = ground (arith, h)

  conclude-Digested :
      (d : DigestSet) (result : RenderResult) (r : Phase ApplyPruneResult × PhaseOutcomes × St C)
      → ((f : PhaseFail) → r.0 ≡ failed f → is_failure f.outcome ≡ true)
      → ((a : ApplyPruneResult) → r.0 ≡ done a → a.entries ≡ result.inventory_entries)
      → is_applied (conclude w interval d r).locals.outcome ≡ true
      → ((conclude w interval d r).locals.digests ≡ d)
        × ((conclude w interval d r).locals.new_entries ≡ result.inventory_entries)
  unfolding conclude give_up
  conclude-Digested d result (failed f, ph, s) bad es e =
      absurd (failure_applies_not f.outcome (bad f refl) e)
  conclude-Digested d result (done a, ph, s) bad es e = (refl, es a refl)

  no_op_stage-Idle :
      (d : DigestSet) (result : RenderResult) (t : St C)
      → is_no_op d (last_applied w t.rel) ≡ true
      → IsIdle t.cluster (no_op_stage w interval d result t)
  unfolding no_op_stage call
  no_op_stage-Idle d result t h =
      rw (h, no_op_stage) (record { outcome = refl; cluster = refl; delay = refl })

  pub apply_stage-Digested :
      (d : DigestSet) (result : RenderResult) (s : St C)
      → is_applied (apply_stage w interval d result s).locals.outcome ≡ true
      → ((apply_stage w interval d result s).locals.digests ≡ d)
        × ((apply_stage w interval d result s).locals.new_entries ≡ result.inventory_entries)
  unfolding apply_stage conclude
  apply_stage-Digested d result s =
      conclude-Digested d result (apply_and_prune_release w result s)
        (apply_and_prune-fails result s) (apply_and_prune-entries result s)

  pub no_op_stage-Twin :
      (last : DigestSet) (c : C) (d : DigestSet) (result : RenderResult) (s t : St C)
      → IsAlike last c s t
      → d.inventory ≡ compute_digest w.encoding result.inventory_entries
      → is_empty d.config ≡ false
      → is_empty d.render ≡ false
      → is_empty d.inventory ≡ false
      → IsTwin last c (no_op_stage w interval d result s) (no_op_stage w interval d result t)
  unfolding no_op_stage call IsTwin
  no_op_stage-Twin last c d result s t alike inv e f g =
      elim (Bool-cases (is_no_op d (last_applied w s.rel))) [
        | inl idle ↦ rw (idle, no_op_stage) (λ h. cc)
        | inr busy ↦
            rw (busy, no_op_stage)
              (λ h.
                let (digests, entries) = apply_stage-Digested d result s h in
                (
                  record {
                    inventory =
                        ap (λ v. v.inventory) digests
                        ∙ inv
                        ∙ sym (ap (compute_digest w.encoding) entries);
                    config_set = ap (λ v. is_empty v.config) digests ∙ e;
                    render_set = ap (λ v. is_empty v.render) digests ∙ f;
                    inventory_set = ap (λ v. is_empty v.inventory) digests ∙ g;
                  },
                  λ same.
                      subst (λ k. IsIdle k (no_op_stage w interval d result t)) alike.cluster
                        (no_op_stage-Idle d result t (
                          ap (is_no_op d) alike.last_same
                          ∙ ap (λ v. is_no_op v last) (sym digests)
                          ∙ same)),
                ))
      ]

  -- The facts of the specification of a phase that two runs need.
  pub Spec-fails :
      {A : Type 0} (s : St C) (x : Phase A × St C)
      → Spec w s x
      → (f : PhaseFail) → x.0 ≡ failed f
      → is_failure f.outcome ≡ true
  Spec-fails s (p, s') (inl (a, e, _, _)) f h = cc
  Spec-fails s (p, s') (inr (g, e, (bad, _, _))) f h = let same : g ≡ f = cc in rw same at bad

  pub Spec-keeps :
      {A : Type 0} (s : St C) (x : Phase A × St C)
      → Spec w s x
      → (a : A) → x.0 ≡ done a
      → (x.1.rel ≡ s.rel) × (x.1.cluster ≡ s.cluster)
  Spec-keeps s (p, s') (inl (a, e, rel, cluster)) b h = (rel, cluster)
  Spec-keeps s (p, s') (inr (g, e, _)) b h = cc

  IsAlike-after :
      (last : DigestSet) (c : C) (s t s' t' : St C)
      → IsAlike last c s t
      → s'.rel ≡ s.rel
      → (t'.rel ≡ t.rel) × (t'.cluster ≡ t.cluster)
      → IsAlike last c s' t'
  IsAlike-after last c s t s' t' h e (f, g) = record {
    source_ref = ap (λ r. r.spec.source_ref) f ∙ h.source_ref ∙ sym (ap (λ r. r.spec.source_ref) e);
    path = ap (λ r. r.spec.path) f ∙ h.path ∙ sym (ap (λ r. r.spec.path) e);
    namespace =
        ap (λ r. r.metadata.namespace) f ∙ h.namespace ∙ sym (ap (λ r. r.metadata.namespace) e);
    last_same = ap (last_applied w) f ∙ h.last_same;
    cluster = g ∙ h.cluster;
  }

  -- One stage of both attempts: the phase answers the same, and what follows is a twin.
  pub stage-Twin :
      {A : Type 0} (last : DigestSet) (c : C) (s t : St C) (x y : Phase A × St C) (d : DigestSet)
      (k : A → St C → Attempt C)
      → IsAlike last c s t
      → Spec w s x
      → Spec w t y
      → x.0 ≡ y.0
      → ((a : A)
          → x.0 ≡ done a
          → (s' t' : St C) → IsAlike last c s' t'
          → IsTwin last c (k a s') (k a t'))
      → IsTwin last c (and_then w x d k) (and_then w y d k)
  stage-Twin last c s t x y d k alike sx sy same h =
      and_then-Twin last c x y d k (Spec-fails s x sx) same (λ a e. h a e x.1 y.1 (
        IsAlike-after last c s t x.1 y.1 alike (Spec-keeps s x sx a e).0
          (Spec-keeps t y sy a (sym same ∙ e))))
