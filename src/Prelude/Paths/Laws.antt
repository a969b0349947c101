-- ===== src/Prelude/Paths/Laws.antt =====
-- The names that filepath.Clean leaves.
use Prim.Native.Char.{code}
use poc_controller.Prelude.{
  String, Bool, false, ◌||◌, ◌≡◌, ◌≢◌, refl, inl, inr, List, [], ◌∷◌, ◌==◌, eqb, eq_iff, All,
  Bool-cases,
}
use poc_controller.Prelude.Paths.{
  slash, add_first, split_slash, pop, clean_step, clean_stack, reverse_onto, clean_components,
}

abbrev pub has_slash : String → Bool
has_slash String.[] = false
has_slash (String.◌∷◌ c s) = eqb (code c) slash || has_slash s

-- A name of a directory entry: not empty, neither "." nor "..", and without a slash.
abbrev pub IsPlain : String → Type 0
IsPlain c = (c ≢ "") × (c ≢ ".") × (c ≢ "..") × (has_slash c ≡ false)

pub split_slash-plain : (s : String) → All (λ c. has_slash c ≡ false) (split_slash s)
unfolding split_slash
split_slash-plain String.[] = (refl, tt)
split_slash-plain (String.◌∷◌ c s) = elim (Bool-cases (eqb (code c) slash)) [
  | inl is ↦ rw is (refl, split_slash-plain s)
  | inr other ↦ rw other (first other (split_slash s) (split_slash-plain s))
]
  where
    first :
        eqb (code c) slash ≡ false
        → (ws : List String) → All (λ w. has_slash w ≡ false) ws
        → All (λ w. has_slash w ≡ false) (add_first c ws)
    first other [] h = (rw other, tt)
    first other (w ∷ ws) h = (rw other h.0, h.1)

pub pop-IsPlain : (stack : List String) → All IsPlain stack → All IsPlain (pop stack)
unfolding pop
pop-IsPlain [] h = tt
pop-IsPlain (c ∷ stack) h = h.1

pub clean_step-IsPlain :
    (c : String) (stack : List String)
    → has_slash c ≡ false
    → All IsPlain stack
    → All IsPlain (clean_step c stack)
unfolding clean_step
clean_step-IsPlain c stack k h = elim (Bool-cases (c == "")) [
  | inl empty ↦ rw empty h
  | inr full ↦ elim (Bool-cases (c == ".")) [
    | inl dot ↦ rw (full, dot) h
    | inr name ↦ elim (Bool-cases (c == "..")) [
      | inl dots ↦ rw (full, name, dots) (pop-IsPlain stack h)
      | inr other ↦
          rw (full, name, other)
            (
              (
                (λ e. cc ((eq_iff c "").1 e)),
                (λ e. cc ((eq_iff c ".").1 e)),
                (λ e. cc ((eq_iff c "..").1 e)),
                k,
              ),
              h,
            )
    ]
  ]
]

pub clean_stack-IsPlain :
    (cs stack : List String)
    → All IsPlain stack
    → All (λ c. has_slash c ≡ false) cs
    → All IsPlain (clean_stack stack cs)
unfolding clean_stack
clean_stack-IsPlain [] stack h k = h
clean_stack-IsPlain (c ∷ cs) stack h k =
    clean_stack-IsPlain cs (clean_step c stack) (clean_step-IsPlain c stack k.0 h) k.1

pub reverse_onto-IsPlain :
    (cs acc : List String) → All IsPlain acc → All IsPlain cs → All IsPlain (reverse_onto acc cs)
unfolding reverse_onto
reverse_onto-IsPlain [] acc h k = h
reverse_onto-IsPlain (c ∷ cs) acc h k = reverse_onto-IsPlain cs (c ∷ acc) (k.0, h) k.1

pub clean_components-IsPlain : (path : String) → All IsPlain (clean_components path)
unfolding clean_components
clean_components-IsPlain path =
    reverse_onto-IsPlain (clean_stack [] (split_slash path)) [] tt
      (clean_stack-IsPlain (split_slash path) [] tt (split_slash-plain path))
