-- ===== src/Reconcile/Module/Loop/Idle.antt =====
-- ReconcileModuleRelease of internal/reconcile/modulerelease.go: when it has nothing to do.
use poc_controller.Prelude.{
  Option, none, some, sym, String, true, false, ◌≡◌, ◌≢◌, ◌↔◌, inl, inr, refl, ap, ◌∙◌, ok, arith,
}
use poc_controller.Inventory.{compute_digest}
use poc_controller.Reconcile.Module.Applying.{inventory_digest}
use poc_controller.Api.{Inventory, ModuleRelease, ModuleReleaseSpec, ObjectMeta}
use poc_controller.Status.Digests.{is_no_op, module_source_digest, config_digest}
use poc_controller.Status.Digests.Laws.{
  is_no_op_iff, is_no_op_self, compute_digest_set, config_digest_set, render_digest_set,
  module_source_digest_set,
}
use poc_controller.Reconcile.Outcome.{no_op}
use poc_controller.Reconcile.World.{RenderResult}
use poc_controller.Reconcile.Release.Attempt.Coherence.{is_applied}
use poc_controller.Reconcile.Release.Loop.{requeue_in}
use poc_controller.Reconcile.Module.World.{ModuleWorld, ModuleState, emit}
use poc_controller.Reconcile.Module.Attempt.{ModuleAttempt, last_module_digests}
use poc_controller.Reconcile.Module.Attempt.Plan.{
  planned_cases, all_digests, IsRendered, IsEnded, stopped, planned, IsEnded-module_attempt,
}
use poc_controller.Reconcile.Module.Commit.{module_commit}
use poc_controller.Reconcile.Module.Loop.{module_attempt_and_commit}
use poc_controller.Reconcile.Module.Loop.Status.{
  the_module_attempt, module_attempt_and_commit_keeps,
}

module _ {C : Type 0} (w : ModuleWorld C) where
  -- The module renders to something whose digests are those of the last apply.
  pub record IsCurrent (mr : ModuleRelease) : Type 0 where
    pub result : RenderResult
    pub digest : String
    pub rendered : IsRendered w mr result digest
    pub same : is_no_op (all_digests w mr result digest) (last_module_digests w mr) ≡ true

  -- The module renders, and each digest of the render is the one that the status holds and not empty:
  -- of the reference, of the values, of the objects, and of the inventory that was recorded.
  pub record IsUnchanged (mr : ModuleRelease) : Type 0 where
    pub result : RenderResult
    pub digest : String
    pub rendered : IsRendered w mr result digest
    pub recorded : Inventory
    pub owned : mr.status.inventory ≡ some recorded
    pub source_same :
        module_source_digest w.encoding mr.spec.module_ref.path mr.spec.module_ref.version
        ≡ mr.status.last_applied_source_digest
    pub config_same :
        config_digest w.encoding w.canonical mr.spec.values ≡ mr.status.last_applied_config_digest
    pub render_same : digest ≡ mr.status.last_applied_render_digest
    pub inventory_same : compute_digest w.encoding result.inventory_entries ≡ recorded.digest
    pub all_set :
        (mr.status.last_applied_source_digest ≢ "")
        × (mr.status.last_applied_config_digest ≢ "")
        × (mr.status.last_applied_render_digest ≢ "")
        × (recorded.digest ≢ "")

  inventory_set :
      (inv : Option Inventory)
      → inventory_digest inv ≢ ""
      → (recorded : Inventory) × (inv ≡ some recorded) × (inventory_digest inv ≡ recorded.digest)
  inventory_set none h = absurd (h refl)
  inventory_set (some inv) h = (inv, refl, refl)

  current-IsUnchanged : (mr : ModuleRelease) → IsCurrent mr → IsUnchanged mr
  current-IsUnchanged mr h =
      let digests = all_digests w mr h.result h.digest in
      let (same, source, config, render, inventory) =
        (is_no_op_iff digests (last_module_digests w mr)).0 h.same in
      let (recorded, owned, known) = inventory_set mr.status.inventory inventory in
      record {
        result = h.result;
        digest = h.digest;
        rendered = h.rendered;
        recorded = recorded;
        owned = owned;
        source_same = ap (λ d. d.source) same;
        config_same = ap (λ d. d.config) same;
        render_same = ap (λ d. d.render) same;
        inventory_same = ap (λ d. d.inventory) same ∙ known;
        all_set = (source, config, render, λ e. inventory (known ∙ e));
      }

  unchanged-IsCurrent : (mr : ModuleRelease) → IsUnchanged mr → IsCurrent mr
  unchanged-IsCurrent mr h = record {
    result = h.result;
    digest = h.digest;
    rendered = h.rendered;
    same =
        let known : inventory_digest mr.status.inventory ≡ h.recorded.digest =
          ap inventory_digest h.owned in
        let same : all_digests w mr h.result h.digest ≡ last_module_digests w mr =
          ground (arith, h.source_same, h.config_same, h.render_same, h.inventory_same, known) in
        (is_no_op_iff (all_digests w mr h.result h.digest) (last_module_digests w mr)).1
          (same, h.all_set.0, h.all_set.1, h.all_set.2, λ e. h.all_set.3 (sym known ∙ e));
  }

  ended_idle :
      {mr : ModuleRelease} {c : C} {a : ModuleAttempt C}
      → IsEnded w mr c a
      → a.locals.outcome ≡ no_op
      → IsCurrent mr × (a.state.cluster ≡ c) × (a.requeue_after ≡ 0)
  ended_idle e h = elim e [
    | stopped a f never ↦ absurd (ground (arith, f, h))
    | planned a result digest rendered p ↦ elim (planned_cases w _ _ _ _ _ p) [
      | inl (same, u) ↦ (
        record { result = result; digest = digest; rendered = rendered; same = same },
        u.cluster,
        u.delay,
      )
      | inr (_, busy) ↦ absurd (busy.outcome h)
    ]
  ]

  -- A module renders to one result, with one digest.
  rendered_once :
      {mr : ModuleRelease} {result result' : RenderResult} {digest digest' : String}
      → IsRendered w mr result digest
      → IsRendered w mr result' digest'
      → (result ≡ result') × (digest ≡ digest')
  rendered_once {result = result} {result' = result'} {digest = digest} {digest' = digest'} h k =
      let same : result ≡ result' = cc in let also : digest ≡ digest' = cc in (same, also)

  ended_current :
      {mr : ModuleRelease} {c : C} {a : ModuleAttempt C}
      → IsEnded w mr c a
      → IsCurrent mr
      → a.locals.outcome ≡ no_op
  ended_current {mr} e h = elim e [
    | stopped a f never ↦ absurd (never h.result h.digest h.rendered)
    | planned a result digest rendered p ↦ elim (planned_cases w _ _ _ _ _ p) [
      | inl (same, u) ↦ u.outcome
      | inr (new, busy) ↦
          let (r, d) = rendered_once rendered h.rendered in absurd (differ mr r d new h.same)
    ]
  ]
    where
      differ :
          (mr : ModuleRelease) {result result' : RenderResult} {digest digest' : String}
          → result ≡ result'
          → digest ≡ digest'
          → is_no_op (all_digests w mr result digest) (last_module_digests w mr) ≡ false
          → is_no_op (all_digests w mr result' digest') (last_module_digests w mr) ≢ true
      differ mr r d n t = cc

  -- What an apply leaves.
  pub ended_applied :
      {mr : ModuleRelease} {c : C} {a : ModuleAttempt C}
      → IsEnded w mr c a
      → is_applied a.locals.outcome ≡ true
      → (result : RenderResult) × (digest : String) × IsRendered w mr result digest
        × (a.locals.digests ≡ all_digests w mr result digest)
        × (a.locals.new_entries ≡ result.inventory_entries)
  ended_applied e h = elim e [
    | stopped a f never ↦ absurd (ground (arith, f, h))
    | planned a result digest rendered p ↦ elim (planned_cases w _ _ _ _ _ p) [
      | inl (same, u) ↦ absurd (ground (arith, u.outcome, h))
      | inr (new, busy) ↦ (result, digest, rendered, busy.digests, busy.entries h)
    ]
  ]

module _ {C : Type 0} (w : ModuleWorld C) (s : ModuleState C) where
  -- An attempt is a no-op exactly if the release is current.
  module_attempt-IsCurrent_iff :
      ((the_module_attempt w s).locals.outcome ≡ no_op) ↔ IsCurrent w s.mr
  module_attempt-IsCurrent_iff = (
    (λ h. (ended_idle w (IsEnded-module_attempt w s) h).0),
    (λ h. ended_current w (IsEnded-module_attempt w s) h),
  )

  -- An attempt at a ModuleRelease ends as a no-op exactly if the module renders to objects that have a
  -- digest and can be converted, and the digests of the module's reference, of the values, of the
  -- rendered objects and of their inventory are those that the status holds, none of which is empty.
  pub module_attempt_no_op_iff :
      ((the_module_attempt w s).locals.outcome ≡ no_op) ↔ IsUnchanged w s.mr
  module_attempt_no_op_iff =
      let (to, from) = module_attempt-IsCurrent_iff in
      (λ h. current-IsUnchanged w s.mr (to h), λ h. from (unchanged-IsCurrent w s.mr h))

  abbrev pub next_state : ModuleState C
  next_state = (module_attempt_and_commit w s).1

  module_attempt_and_commit-cluster :
      (t : ModuleState C)
      → (module_attempt_and_commit w t).1.cluster ≡ (the_module_attempt w t).state.cluster
  unfolding module_attempt_and_commit module_commit emit
  module_attempt_and_commit-cluster t = refl

  -- The digests of a rendered module are set.
  all_digests-no_op :
      (result : RenderResult) (digest : String)
      → IsRendered w s.mr result digest
      → is_no_op (all_digests w s.mr result digest) (all_digests w s.mr result digest) ≡ true
  all_digests-no_op result digest h =
      is_no_op_self _ (module_source_digest_set w.encoding _ _)
        (config_digest_set w.encoding w.canonical _)
        (render_digest_set w.encoding result.resources digest h.digested)
        (compute_digest_set w.encoding result.inventory_entries)

  next_state-Current :
      is_applied (the_module_attempt w s).locals.outcome ≡ true → IsCurrent w next_state.mr
  next_state-Current applied =
      let (owned, spec, metadata) = module_attempt_and_commit_keeps w s in
      let (result, digest, rendered, digests, entries) =
        ended_applied w (IsEnded-module_attempt w s) applied in
      let last_same : last_module_digests w next_state.mr ≡ all_digests w s.mr result digest =
        ground (arith, owned, applied, digests, entries) in
      let same_release : (next_state.mr.metadata, next_state.mr.spec) ≡ (s.mr.metadata, s.mr.spec) =
        ground (arith, spec, metadata) in
      record {
        result = result;
        digest = digest;
        rendered = record {
          rendered =
              ap
                (λ (v : ObjectMeta × ModuleReleaseSpec).
                  w.render_module v.0.name v.0.namespace v.1.module_ref v.1.values)
                same_release
              ∙ rendered.rendered;
          digested = rendered.digested;
          resources = rendered.resources;
          converted = rendered.converted;
        };
        same =
            ap
              (λ sp.
                is_no_op (all_digests w (record (s.mr) { spec = sp }) result digest)
                  (last_module_digests w next_state.mr))
              spec
            ∙ ap (is_no_op (all_digests w s.mr result digest)) last_same
            ∙ all_digests-no_op result digest rendered;
      }

  -- Where an attempt at a ModuleRelease applies, a second attempt on the state that it commits, in a
  -- world that answers the same, is a no-op: it leaves the cluster alone and asks for no retry.
  pub module_attempt_and_commit_idle :
      is_applied (the_module_attempt w s).locals.outcome ≡ true
      → ((the_module_attempt w next_state).locals.outcome ≡ no_op)
        × ((module_attempt_and_commit w next_state).1.cluster ≡ next_state.cluster)
        × ((module_attempt_and_commit w next_state).0 ≡ ok (requeue_in 0))
  unfolding module_attempt_and_commit
  module_attempt_and_commit_idle applied =
      let idle =
        ended_current w (IsEnded-module_attempt w next_state) (next_state-Current applied) in
      let (_, cluster, delay) = ended_idle w (IsEnded-module_attempt w next_state) idle in
      (
        idle,
        module_attempt_and_commit-cluster next_state ∙ cluster,
        ap (λ d. ok (requeue_in d)) delay,
      )
