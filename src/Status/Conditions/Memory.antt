-- ===== src/Status/Conditions/Memory.antt =====
-- A condition list in memory: conditions in order, at most one of each type when written by `mark`.
use poc_controller.Prelude.{
  String, ◌≡◌, Option, none, some, List, [], ◌∷◌, ◌==◌, eq_iff, arith, if◌then◌else◌,
}
use poc_controller.Api.{Condition, ConditionStatus, is_true}
use poc_controller.Status.Conditions.{
  ConditionApi, condition, reconciling_condition, stalled_condition,
}

unfoldable pub find : String → List Condition → Option Condition
find k [] = none
find k (c ∷ cs) = if c.type == k then some c else find k cs

unfoldable pub delete : String → List Condition → List Condition
delete k [] = []
delete k (c ∷ cs) = let rest = delete k cs in if c.type == k then rest else c ∷ rest

unfoldable pub mark : ConditionStatus → String → String → String → List Condition → List Condition
unfolding delete
mark s t r m cs = condition t s r m ∷ delete t cs

pub find-delete :
    (k t : String) (cs : List Condition)
    → find k (delete t cs) ≡ (if t == k then none else find k cs)
unfolding find delete
find-delete k t [] = ground arith
find-delete k t (c ∷ cs) =
    ground (arith, find-delete k t cs, eq_iff c.type t, eq_iff c.type k, eq_iff t k)

pub find-mark :
    (k : String) (s : ConditionStatus) (t r m : String) (cs : List Condition)
    → find k (mark s t r m cs) ≡ (if t == k then some (condition t s r m) else find k cs)
unfolding find mark
find-mark k s t r m cs = ground (arith, find-delete k t cs)

unfoldable pub mark_reconciling : String → String → List Condition → List Condition
unfolding mark
mark_reconciling r m cs = mark is_true reconciling_condition r m (delete stalled_condition cs)

unfoldable pub mark_stalled : String → String → List Condition → List Condition
unfolding mark
mark_stalled r m cs = mark is_true stalled_condition r m (delete reconciling_condition cs)

pub find-mark_reconciling :
    (k r m : String) (cs : List Condition)
    → find k (mark_reconciling r m cs) ≡ (
        if reconciling_condition == k
        then some (condition reconciling_condition is_true r m)
        else if stalled_condition == k
        then none
        else find k cs)
find-mark_reconciling k r m cs = unfold mark_reconciling in simp (find-mark, find-delete)

pub find-mark_stalled :
    (k r m : String) (cs : List Condition)
    → find k (mark_stalled r m cs) ≡ (
        if stalled_condition == k
        then some (condition stalled_condition is_true r m)
        else if reconciling_condition == k
        then none
        else find k cs)
find-mark_stalled k r m cs = unfold mark_stalled in simp (find-mark, find-delete)

abbrev pub memory : ConditionApi
memory = record {
  find = find;
  delete = delete;
  mark = mark;
  mark_reconciling = mark_reconciling;
  mark_stalled = mark_stalled;
  find-delete = find-delete;
  find-mark = find-mark;
  find-mark_reconciling = find-mark_reconciling;
  find-mark_stalled = find-mark_stalled;
}
