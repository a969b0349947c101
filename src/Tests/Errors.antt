-- ===== src/Tests/Errors.antt =====
-- Grouping two errors of CUE.
use mathlib.Core.List.{Memᴰ}
use poc_controller.Prelude.{◌≡◌, ◌↔◌, true, refl, [], ◌∷◌}
use poc_controller.Errors.{CueError, GroupedError, group_cue_errors, normalize_cue_path}
use poc_controller.Errors.Laws.{IsReported, group_cue_errors_iff}

abbrev conflict : CueError
conflict = record {
  path = "#config" ∷ "replicas" ∷ [];
  message = "conflicting values";
  positions = record { is_valid = true; filename = "values.cue"; line = 3; column = 5 } ∷ [];
}

abbrev again : CueError
again = record conflict {
  positions = record { is_valid = true; filename = "module.cue"; line = 8; column = 2 } ∷ [];
}

normalize_test : normalize_cue_path conflict.path ≡ "values.replicas"
unfolding normalize_cue_path poc_controller.Errors.trim_config poc_controller.Errors.join_dots
    poc_controller.Errors.cut_prefix
normalize_test = refl

group_example :
    ((g : GroupedError) × Memᴰ g (group_cue_errors (λ f. f) (conflict ∷ again ∷ []))
      × (g.message ≡ "conflicting values"))
    ↔ IsReported "conflicting values" (conflict ∷ again ∷ [])
group_example = group_cue_errors_iff (λ f. f) "conflicting values" (conflict ∷ again ∷ [])
