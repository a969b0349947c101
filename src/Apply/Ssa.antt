-- ===== src/Apply/Ssa.antt =====
-- internal/apply/apply.go over Flux's ResourceManager.
use poc_controller.Prelude.{ℕ, ◌+◌, Bool, List, [], ◌∷◌, Result, ok, err, wrap}
use poc_controller.Core.{Unstructured}

-- The actions of fluxssa that the code counts, and the others.
pub data Action : Type 0 where
  created configured unchanged deleted skipped unknown : Action

pub record ApplyResult : Type 0 where
  pub created : ℕ
  pub updated : ℕ
  pub unchanged : ℕ

-- Flux's ResourceManager over the state `C` of the cluster: the staged apply of a set of objects,
-- and the dry run of one.
pub record ResourceManager (C : Type 0) : Type 0 where
  pub apply_all_staged : List Unstructured → Bool → C → Result (List Action) × C
  pub diff : Unstructured → C → Result Action

-- the loop over changeSet.Entries
unfoldable pub count_actions : ApplyResult → List Action → ApplyResult
count_actions r [] = r
count_actions r (created ∷ entries) = count_actions (record r { created = r.created + 1 }) entries
count_actions r (configured ∷ entries) =
    count_actions (record r { updated = r.updated + 1 }) entries
count_actions r (unchanged ∷ entries) =
    count_actions (record r { unchanged = r.unchanged + 1 }) entries
count_actions r (_ ∷ entries) = count_actions r entries

finish : Result (List Action) → Result ApplyResult
unfolding count_actions
finish (err e) = err (wrap "failed to apply resources: " e)
finish (ok entries) =
    ok (count_actions (record { created = 0; updated = 0; unchanged = 0 }) entries)

-- Apply
unfoldable pub apply :
    {C : Type 0} → ResourceManager C → List Unstructured → Bool → C → Result ApplyResult × C
unfolding finish
apply rm resources force c =
    let (changes, c') = rm.apply_all_staged resources force c in (finish changes, c')
