-- ===== src/Source/Extract/Guards.antt =====
-- The guard on names of internal/source/extract.go, and where a name that passes it lies.
use Prim.Native.Char.{Char, code}
use poc_controller.Prelude.{
  ◌≢◌, ◌&&◌, ap, ◌∙◌, eqb, String, false, ◌≡◌, ◌↔◌, inl, inr, refl, List, [], ◌∷◌, All, Bool-cases,
  arith,
}
use poc_controller.Prelude.Paths.{slash, clean_stack, reverse_onto, join_slash}
use poc_controller.Prelude.Paths.Laws.{IsPlain}
use poc_controller.Source.Extract.Names.{clean_step-push, clean_names-IsPlain}
use poc_controller.Source.Disk.{Place}
use poc_controller.Source.Extract.{
  is_abs, starts_with_dots, clean_names, contains_traversal, target_place,
}

-- A name that is not absolute, and that filepath.Clean gives no leading "..".
pub record IsSafeName (name : String) : Type 0 where
  pub relative : (c : Char) (rest : String) → code c ≡ slash → name ≢ String.◌∷◌ c rest
  pub no_climb :
      (c d : Char) (rest : String)
      → code c ≡ b'.'
      → code d ≡ b'.'
      → join_slash (clean_names name) ≢ String.◌∷◌ c (String.◌∷◌ d rest)

is_abs_iff :
    (name : String)
    → (is_abs name ≡ false)
      ↔ ((c : Char) (rest : String) → code c ≡ slash → name ≢ String.◌∷◌ c rest)
unfolding is_abs
is_abs_iff String.[] = (λ h c rest k e. absurd (ground (arith, ap is_abs e, k)), λ h. refl)
is_abs_iff (String.◌∷◌ c s) = (
  (λ h d rest k e. absurd (ground (arith, h, ap is_abs e, k))),
  (λ h. elim (Bool-cases (eqb (code c) slash)) [
    | inr other ↦ other
    | inl same ↦ absurd (h c s (ground (arith, same)) refl)
  ]),
)

starts_with_dots_iff :
    (name : String)
    → (starts_with_dots name ≡ false) ↔ (
        (c d : Char) (rest : String)
        → code c ≡ b'.'
        → code d ≡ b'.'
        → name ≢ String.◌∷◌ c (String.◌∷◌ d rest))
unfolding starts_with_dots
starts_with_dots_iff String.[] =
    (λ h c d rest k l e. absurd (ground (arith, ap starts_with_dots e, k, l)), λ h. refl)
starts_with_dots_iff (String.◌∷◌ a String.[]) =
    (λ h c d rest k l e. absurd (ground (arith, ap starts_with_dots e, k, l)), λ h. refl)
starts_with_dots_iff (String.◌∷◌ a (String.◌∷◌ b s)) = (
  (λ h c d rest k l e. absurd (ground (arith, h, ap starts_with_dots e, k, l))),
  (λ h. elim (Bool-cases (eqb (code a) b'.' && eqb (code b) b'.')) [
    | inr other ↦ other
    | inl same ↦ absurd (h a b s (ground (arith, same)) (ground (arith, same)) refl)
  ]),
)

-- The guard on names lets exactly the safe ones pass.
pub contains_traversal_iff : (name : String) → (contains_traversal name ≡ false) ↔ IsSafeName name
unfolding contains_traversal
contains_traversal_iff name =
    let (rel, rel_back) = is_abs_iff name in
    let (flat, flat_back) = starts_with_dots_iff (join_slash (clean_names name)) in
    (
      λ h. record { relative = rel (ground (arith, h)); no_climb = flat (ground (arith, h)) },
      λ h. ground (arith, rel_back h.relative, flat_back h.no_climb),
    )

clean_stack-plain :
    (names : List String) (dest : Place)
    → All IsPlain names
    → clean_stack dest names ≡ reverse_onto dest names
unfolding clean_stack reverse_onto
clean_stack-plain [] dest h = refl
clean_stack-plain (c ∷ names) dest (p, h) =
    ap (λ d. clean_stack d names) (clean_step-push c dest p) ∙ clean_stack-plain names (c ∷ dest) h

-- A name that passes the guard leads to the destination's place of its cleaned names.
pub target_place-safe :
    (dest : Place) (name : String)
    → contains_traversal name ≡ false
    → target_place dest name ≡ reverse_onto dest (clean_names name)
unfolding target_place
target_place-safe dest name h =
    clean_stack-plain (clean_names name) dest (clean_names-IsPlain name h)
