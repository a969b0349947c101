-- ===== src/Source/Extract/Names.antt =====
-- The cleaned names of internal/source/extract.go: an entry whose name passes the guard lies in the destination.
use mathlib.Core.List.{append_assoc}
use text.Mathlib.TextLemmas.{cons-append}
use poc_controller.Prelude.{
  String, true, false, ◌||◌, ◌≡◌, ◌≢◌, ◌⊎◌, inl, inr, refl, sym, ap, subst, ◌∙◌, List, [], ◌∷◌,
  ◌++◌, ◌==◌, ◌^^◌, is_empty, eq_iff, eq_refl, All, Bool-cases, arith, if◌then◌else◌,
}
use poc_controller.Prelude.Paths.{split_slash, clean_step, clean_stack, reverse_onto, join_slash}
use poc_controller.Prelude.Paths.Laws.{IsPlain, has_slash, split_slash-plain, reverse_onto-IsPlain}
use poc_controller.Source.Disk.{Place}
use poc_controller.Source.Extract.{
  climb, clean_relative, clean_names, is_abs, starts_with_dots, contains_traversal, target_place,
  same_place, is_within,
}

IsDots : String → Type 0
IsDots c = c ≡ ".."

-- Names above some "..", the last one first.
IsClimbed : List String → Type 0
IsClimbed [] = Unit
IsClimbed (c ∷ s) = (IsPlain c × IsClimbed s) ⊎ All IsDots (c ∷ s)

climb-IsClimbed : (s : List String) → IsClimbed s → IsClimbed (climb s)
unfolding climb IsClimbed IsDots
climb-IsClimbed [] h = inr (refl, tt)
climb-IsClimbed (c ∷ s) (inl (p, h)) = elim (Bool-cases (c == "..")) [
  | inl dots ↦ absurd (p.2 ((eq_iff c "..").0 dots))
  | inr other ↦ rw other h
]
climb-IsClimbed (c ∷ s) (inr (e, h)) = elim (Bool-cases (c == "..")) [
  | inl dots ↦ rw dots (inr (refl, (e, h)))
  | inr other ↦ absurd (cc ((eq_iff c "..").1 e))
]

clean_relative-IsClimbed :
    (cs s : List String)
    → All (λ c. has_slash c ≡ false) cs
    → IsClimbed s
    → IsClimbed (clean_relative s cs)
unfolding clean_relative IsClimbed
clean_relative-IsClimbed [] s k h = h
clean_relative-IsClimbed (c ∷ cs) s (k, ks) h = clean_relative-IsClimbed cs _ ks stepped
  where
    stepped : IsClimbed (if is_empty c || c == "." then s else if c == ".." then climb s else c ∷ s)
    stepped = elim (Bool-cases (c == "")) [
      | inl empty ↦ rw empty h
      | inr full ↦ elim (Bool-cases (c == ".")) [
        | inl dot ↦ rw (full, dot) h
        | inr name ↦ elim (Bool-cases (c == "..")) [
          | inl dots ↦ rw (full, name, dots) (climb-IsClimbed s h)
          | inr other ↦
              rw (full, name, other)
                (inl (
                  (
                    (λ e. cc ((eq_iff c "").1 e)),
                    (λ e. cc ((eq_iff c ".").1 e)),
                    (λ e. cc ((eq_iff c "..").1 e)),
                    k,
                  ),
                  h,
                ))
        ]
      ]
    ]

-- The first name is ".." where any is.
reverse_onto-dots :
    (s acc : List String)
    → All IsDots s
    → (rest : List String) × (reverse_onto (".." ∷ acc) s ≡ ".." ∷ rest)
unfolding reverse_onto IsDots
reverse_onto-dots [] acc h = (acc, refl)
reverse_onto-dots (c ∷ s) acc (e, h) =
    subst (λ d. (rest : List String) × (reverse_onto (d ∷ ".." ∷ acc) s ≡ ".." ∷ rest)) (sym e)
      (reverse_onto-dots s (".." ∷ acc) h)

reverse_onto-climbed :
    (s acc : List String)
    → IsClimbed s
    → All IsPlain s ⊎ ((rest : List String) × (reverse_onto acc s ≡ ".." ∷ rest))
unfolding reverse_onto IsClimbed IsDots
reverse_onto-climbed [] acc h = inl tt
reverse_onto-climbed (c ∷ s) acc (inl (p, h)) = elim (reverse_onto-climbed s (c ∷ acc) h) [
  | inl q ↦ inl (p, q)
  | inr r ↦ inr r
]
reverse_onto-climbed (c ∷ s) acc (inr (e, h)) = inr (
    subst (λ d. (rest : List String) × (reverse_onto (d ∷ acc) s ≡ ".." ∷ rest)) (sym e)
      (reverse_onto-dots s acc h))

starts_with_dots-append :
    (p t : String) → starts_with_dots p ≡ true → starts_with_dots (p ^^ t) ≡ true
unfolding starts_with_dots
starts_with_dots-append String.[] t h = cc
starts_with_dots-append (String.◌∷◌ c String.[]) t h = cc
starts_with_dots-append (String.◌∷◌ c (String.◌∷◌ d s)) t h =
    ap starts_with_dots (cons-append c (String.◌∷◌ d s) t ∙ ap (String.◌∷◌ c) (cons-append d s t))
    ∙ h

starts_with_dots-first : (rest : List String) → starts_with_dots (join_slash (".." ∷ rest)) ≡ true
unfolding starts_with_dots join_slash
starts_with_dots-first [] = refl
starts_with_dots-first (c ∷ rest) = starts_with_dots-append ".." ("/" ^^ join_slash (c ∷ rest)) refl

-- A name that passes the guard is cleaned to plain names.
pub clean_names-IsPlain :
    (path : String) → contains_traversal path ≡ false → All IsPlain (clean_names path)
unfolding contains_traversal clean_names IsClimbed
clean_names-IsPlain path h = elim (Bool-cases (is_abs path)) [
  | inl abs ↦ absurd (ground (arith, h, abs))
  | inr rel ↦
      let s = clean_relative [] (split_slash path) in
      elim (reverse_onto-climbed s []
        (clean_relative-IsClimbed (split_slash path) [] (split_slash-plain path) tt)) [
          | inl p ↦ rw rel (reverse_onto-IsPlain s [] tt p)
          | inr (rest, e) ↦ absurd (dotted rel e)
        ]
]
  where
    dotted :
        is_abs path ≡ false
        → {rest : List String}
        → reverse_onto [] (clean_relative [] (split_slash path)) ≢ ".." ∷ rest
    dotted rel {rest} e = ground (arith, h, rel, e, starts_with_dots-first rest)

-- A place at or below another one, along plain names.
abbrev pub IsAtOrBelow : Place → Place → Type 0
IsAtOrBelow dest p = (names : List String) × All IsPlain names × (p ≡ names ++ dest)

pub clean_step-push : (c : String) (base : Place) → IsPlain c → clean_step c base ≡ c ∷ base
unfolding clean_step
clean_step-push c base (a, b, d, _) =
    ground (arith, eq_iff c "", eq_iff c ".", eq_iff c "..", a, b, d)

clean_stack-below :
    (cs : List String) (base : Place) → All IsPlain cs → IsAtOrBelow base (clean_stack base cs)
unfolding clean_stack
clean_stack-below [] base h = ([], tt, refl)
clean_stack-below (c ∷ cs) base (p, ps) =
    let (names, plain, e) = clean_stack-below cs (c ∷ base) ps in
    (
      names ++ c ∷ [],
      All-append names plain p,
      ap (λ b. clean_stack b cs) (clean_step-push c base p)
          ∙ e
          ∙ sym (append_assoc names (c ∷ []) base),
    )
  where
    All-append :
        (names : List String) → All IsPlain names → IsPlain c → All IsPlain (names ++ c ∷ [])
    All-append [] h p = (p, tt)
    All-append (n ∷ names) (q, h) p = (q, All-append names h p)

-- The target of an entry whose name passes the guard lies in the destination.
pub target_place-below :
    (dest : Place) (path : String)
    → contains_traversal path ≡ false
    → IsAtOrBelow dest (target_place dest path)
unfolding target_place
target_place-below dest path h =
    clean_stack-below (clean_names path) dest (clean_names-IsPlain path h)

same_place-eq : (p q : Place) → same_place p q ≡ true → p ≡ q
unfolding same_place
same_place-eq [] [] h = refl
same_place-eq [] (b ∷ q) h = cc
same_place-eq (a ∷ p) [] h = cc
same_place-eq (a ∷ p) (b ∷ q) h =
    let head : a ≡ b = ground (arith, eq_iff a b, h) in
    let tail : p ≡ q = same_place-eq p q (ground (arith, h)) in cc

-- The test on a link's place holds of places at or below the destination only.
pub is_within-below :
    (dest p : Place) → is_within dest p ≡ true → (names : List String) × (p ≡ names ++ dest)
unfolding is_within
is_within-below dest [] h = ([], same_place-eq [] dest h)
is_within-below dest (c ∷ p) h = elim (Bool-cases (same_place (c ∷ p) dest)) [
  | inl same ↦ ([], same_place-eq (c ∷ p) dest same)
  | inr other ↦
      let (names, e) = is_within-below dest p (ground (arith)) in (c ∷ names, ap (λ q. c ∷ q) e)
]

same_place_refl : (p : Place) → same_place p p ≡ true
unfolding same_place
same_place_refl [] = refl
same_place_refl (a ∷ p) = ground (arith, eq_refl a, same_place_refl p)

is_within_refl : (dest : Place) → is_within dest dest ≡ true
unfolding is_within
is_within_refl [] = same_place_refl []
is_within_refl (c ∷ p) = ground (arith, same_place_refl (c ∷ p))

-- Each place at or below the destination passes that test.
pub below-is_within :
    (dest : Place) (names : List String) (p : Place) → p ≡ names ++ dest → is_within dest p ≡ true
unfolding is_within
below-is_within dest [] p e = ap (is_within dest) e ∙ is_within_refl dest
below-is_within dest (c ∷ names) p e =
    ap (is_within dest) e ∙ ground (arith, below-is_within dest names (names ++ dest) refl)
