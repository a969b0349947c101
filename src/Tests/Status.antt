-- ===== src/Tests/Status.antt =====
-- The conditions, the history and the digests of a status at concrete inputs.
use poc_controller.Prelude.{true, ◌≡◌, refl, arith, List, [], ◌∷◌, take}
use poc_controller.Api.{HistoryEntry}
use poc_controller.Status.Conditions.{
  condition, ready_condition, stalled_condition, reconciling_condition,
}
use poc_controller.Status.Conditions.Laws.{
  MarkCall, reconciling, stalled, ready, drifted, run_marks, is_consistent, run_marks-is_consistent,
}
use poc_controller.Status.Conditions.Memory.{memory}
use poc_controller.Status.Digests.{DigestSet}
use poc_controller.Status.History.{max_history_entries, new_success_entry}
use poc_controller.Status.History.Laws.{record_all, journal, record_all-take}
use poc_controller.Tests.Sample as Sample

abbrev calls : List MarkCall
calls = reconciling "Progressing" "" ∷ stalled "RenderFailed" "no" ∷ ready "ok" ∷ drifted "3" ∷ []

marks_example : is_consistent memory (run_marks memory calls Sample.ready) ≡ true
unfolding is_consistent poc_controller.Status.Conditions.Memory.find
marks_example = run_marks-is_consistent memory calls Sample.ready refl

abbrev digests : DigestSet
digests = record {
  source = "sha256:1";
  config = "sha256:2";
  render = "sha256:3";
  inventory = "sha256:4";
}

abbrev success : HistoryEntry
success = new_success_entry 5 "reconcile" "complete" digests 2

journal_example :
    record_all [] (success ∷ success ∷ [])
    ≡ take max_history_entries (journal 0 [] (success ∷ success ∷ []))
journal_example = record_all-take (success ∷ success ∷ []) (omega arith)
