-- ===== src/Reconcile/Release/Applying.antt =====
-- applyAndPruneRelease of internal/reconcile/release.go: the last phase.
use poc_controller.Prelude.{
  ℕ, Bool, true, false, ◌&&◌, Option, none, some, List, [], ◌^^◌, ltb, length, Result, ok, err,
  inc64, if◌then◌else◌,
}
use poc_controller.Api.{Release, Inventory, InventoryEntry, RolloutSpec}
use poc_controller.Core.{Unstructured}
use poc_controller.Inventory.{compute_stale_set}
use poc_controller.Status.Conditions.{mark_stalled, mark_not_ready, clear_drifted}
use poc_controller.Apply.Ssa.{ApplyResult}
use poc_controller.Apply.Ssa
use poc_controller.Apply.Prune
use poc_controller.Apply.Prune.{Client, PruneResult}
use poc_controller.Reconcile.Outcome.{
  Outcome, PhaseOutcomes, no_phases, applied, applied_and_pruned,
}
use poc_controller.Reconcile.Backoff.{compute_backoff}
use poc_controller.Reconcile.World.{
  World, St, Call, RenderResult, normal, warning, event, call, mark,
}
use poc_controller.Reconcile.Release.Identity.{build_release_apply_client}
use poc_controller.Reconcile.Release.Phases.{
  Phase, done, failed, stall, retry, to_unstructured_slice,
}

-- applyPruneResult
pub record ApplyPruneResult : Type 0 where
  pub outcome : Outcome
  pub entries : List InventoryEntry

-- `rel.Spec.Rollout != nil && rel.Spec.Rollout.ForceConflicts`
abbrev pub force_conflicts : Option RolloutSpec → Bool
force_conflicts none = false
force_conflicts (some r) = r.force_conflicts

abbrev pub inventory_entries : Option Inventory → List InventoryEntry
inventory_entries none = []
inventory_entries (some inv) = inv.entries

module _ {C : Type 0} (w : World C) where
  open w use {conditions}

  -- releaseBackoff
  unfoldable pub release_backoff : Release → ℕ
  release_backoff rel = elim rel.status.failure_counters [
    | none ↦ compute_backoff (inc64 0)
    | some c ↦ compute_backoff (inc64 c.reconcile)
  ]

  -- the end of applyAndPruneRelease, after the apply
  unfoldable pub prune_phase :
      Client C
      → RenderResult
      → List InventoryEntry
      → PhaseOutcomes
      → St C
      → Phase ApplyPruneResult × PhaseOutcomes × St C
  unfolding release_backoff
  prune_phase client result stale ph s =
      if s.rel.spec.prune && ltb 0 (length stale)
      then (let (counts, error, c) = Prune.prune client "" stale s.cluster in
          let s1 = call (Call.prune "" stale) (record s { cluster = c }) in
          elim error [
            | some e ↦ (
              failed (retry e.msg (release_backoff s.rel)),
              record ph { prune_failed = true },
              mark (mark_not_ready conditions "PruneFailed" e.msg)
                  (call (event warning "PruneFailed" "Prune") s1),
            )
            | none ↦ (
              done (record { outcome = applied_and_pruned; entries = result.inventory_entries }),
              ph,
              if ltb 0 counts.deleted then call (event normal "Pruned" "Prune") s1 else s1,
            )
          ])
      else (done (record { outcome = applied; entries = result.inventory_entries }), ph, s)

  -- the part of applyAndPruneRelease after the apply; `ph` has applyRan set
  unfoldable pub after_apply :
      Client C
      → RenderResult
      → List InventoryEntry
      → PhaseOutcomes
      → Result ApplyResult
      → St C
      → Phase ApplyPruneResult × PhaseOutcomes × St C
  unfolding prune_phase
  after_apply client result stale ph (err e) s = (
    failed (retry e.msg (release_backoff s.rel)),
    record ph { apply_failed = true },
    mark (mark_not_ready conditions "ApplyFailed" e.msg)
        (call (event warning "ApplyFailed" "Apply") s),
  )
  after_apply client result stale ph (ok _) s =
      prune_phase client result stale (record ph { prune_ran = true })
        (mark (clear_drifted conditions) (call (event normal "Applied" "Apply") s))

  -- the part of applyAndPruneRelease from the apply on
  unfoldable pub apply_phase :
      Ssa.ResourceManager C
      → Client C
      → RenderResult
      → List Unstructured
      → List InventoryEntry
      → St C
      → Phase ApplyPruneResult × PhaseOutcomes × St C
  unfolding after_apply
  apply_phase rm client result resources stale s =
      let force = force_conflicts s.rel.spec.rollout in
      let (answer, c) = Ssa.apply rm resources force s.cluster in
      after_apply client result stale (record (no_phases) { apply_ran = true }) answer
        (call (Call.apply resources force) (record s { cluster = c }))

  -- applyAndPruneRelease
  unfoldable pub apply_and_prune_release :
      RenderResult → St C → Phase ApplyPruneResult × PhaseOutcomes × St C
  unfolding apply_phase
  apply_and_prune_release result s = elim (to_unstructured_slice result.resources) [
    | err e ↦ (
      failed (stall e.msg),
      no_phases,
      mark (mark_stalled conditions "ApplyFailed" ("converting resources: " ^^ e.msg)) s,
    )
    | ok resources ↦
        let stale =
          compute_stale_set (inventory_entries s.rel.status.inventory) result.inventory_entries in
        elim (build_release_apply_client w s.rel) [
          | err e ↦ (
            failed (stall e.msg),
            no_phases,
            mark (mark_stalled conditions "ImpersonationFailed" e.msg) s,
          )
          | ok (rm, client) ↦ apply_phase rm client result resources stale s
        ]
  ]
