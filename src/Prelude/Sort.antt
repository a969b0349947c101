-- ===== src/Prelude/Sort.antt =====
-- Go's stable sort by a `less` function, and the order of texts by their bytes.
pub mod Order
pub mod Keys
pub mod Members
use Prim.Native.String.{String, compare}
use mathlib.Core.Bool.{Bool}
use mathlib.Core.List.{List, [], ◌∷◌}
use text.Mathlib.Text.{is_lt}
use poc_controller.Prelude.Tests.{if◌then◌else◌}

-- s < t
abbrev pub text_lt : String → String → Bool
text_lt s t = is_lt (compare s t)

module _ {ℓ} {A : Type ℓ} where
  -- `x` stood before the items of the sorted list, so it goes in front of its equals.
  unfoldable pub insert_stable : (A → A → Bool) → A → List A → List A
  insert_stable less x [] = x ∷ []
  insert_stable less x (y ∷ ys) = if less y x then y ∷ insert_stable less x ys else x ∷ y ∷ ys

  -- sort.SliceStable
  unfoldable pub sort_stable : (A → A → Bool) → List A → List A
  unfolding insert_stable
  sort_stable less [] = []
  sort_stable less (x ∷ xs) = insert_stable less x (sort_stable less xs)
