-- ===== src/Prelude/Sort/Order.antt =====
-- Orders on texts and on records of texts, and sorts that do not depend on the order of their input.
use Prim.Native.Nat.{Ordering, compare as compare_ℕ}
use Prim.Native.Char.{Char, code}
use Prim.Native.String.{compare, then}
use Prim.Native.String.compare
use text.Mathlib.Text.{is_lt, is_eq}
use text.Mathlib.TextEquality.{Char-path}
use poc_controller.Prelude.{
  String, Bool, true, false, ◌||◌, ◌&&◌, ◌≡◌, refl, ap, ◌∙◌, ltb, eqb, arith,
}
use poc_controller.Prelude.Sort.{text_lt}

-- A strict order that is connected up to what `key` shows.
pub record IsOrder {ℓ κ} {A : Type ℓ} {K : Type κ} (less : A → A → Bool) (key : A → K)
    : Type (ℓ ⊔ κ) where
  pub asym : (a b : A) → less a b ≡ true → less b a ≡ false
  pub connected : (a b : A) → less a b ≡ false → less b a ≡ false → key a ≡ key b
  pub shift : (a b c : A) → less c a ≡ true → less c b ≡ false → less b a ≡ true

is_lt-then : (o r : Ordering) → is_lt (then o r) ≡ (is_lt o || (is_eq o && is_lt r))
is_lt-then Ordering.lt r = refl
is_lt-then Ordering.eq r = refl
is_lt-then Ordering.gt r = refl

-- The first characters decide, or else the rest.
text_lt-cons :
    (c d : Char) (s t : String)
    → text_lt (String.◌∷◌ c s) (String.◌∷◌ d t)
      ≡ (ltb (code c) (code d) || (eqb (code c) (code d) && text_lt s t))
text_lt-cons c d s t =
    ap is_lt (compare.cons-cons c d s t) ∙ is_lt-then (compare_ℕ (code c) (code d)) (compare s t)

text_lt-asym : (s t : String) → text_lt s t ≡ true → text_lt t s ≡ false
text_lt-asym String.[] String.[] h = refl
text_lt-asym String.[] (String.◌∷◌ d t) h = ap is_lt (compare.cons-nil d t)
text_lt-asym (String.◌∷◌ c s) String.[] h =
    absurd (ground (arith, h, ap is_lt (compare.cons-nil c s)))
text_lt-asym (String.◌∷◌ c s) (String.◌∷◌ d t) h =
    ground (arith, h, text_lt-cons c d s t, text_lt-cons d c t s, text_lt-asym s t)

text_lt-connected : (s t : String) → text_lt s t ≡ false → text_lt t s ≡ false → s ≡ t
text_lt-connected String.[] String.[] h k = refl
text_lt-connected String.[] (String.◌∷◌ d t) h k =
    absurd (ground (arith, h, ap is_lt (compare.nil-cons d t)))
text_lt-connected (String.◌∷◌ c s) String.[] h k =
    absurd (ground (arith, k, ap is_lt (compare.nil-cons c s)))
text_lt-connected (String.◌∷◌ c s) (String.◌∷◌ d t) h k =
    let same : code c ≡ code d = ground (arith, h, k, text_lt-cons c d s t, text_lt-cons d c t s) in
    let rest : s ≡ t =
      text_lt-connected s t (ground (arith, h, k, text_lt-cons c d s t, text_lt-cons d c t s))
        (ground (arith, h, k, text_lt-cons c d s t, text_lt-cons d c t s)) in
    let first : c ≡ d = Char-path c d same in cc

text_lt-shift : (s t u : String) → text_lt u s ≡ true → text_lt u t ≡ false → text_lt t s ≡ true
text_lt-shift s String.[] String.[] h k = h
text_lt-shift s (String.◌∷◌ d t) String.[] h k =
    absurd (ground (arith, k, ap is_lt (compare.nil-cons d t)))
text_lt-shift String.[] t (String.◌∷◌ e u) h k =
    absurd (ground (arith, h, ap is_lt (compare.cons-nil e u)))
text_lt-shift (String.◌∷◌ c s) String.[] (String.◌∷◌ e u) h k = ap is_lt (compare.nil-cons c s)
text_lt-shift (String.◌∷◌ c s) (String.◌∷◌ d t) (String.◌∷◌ e u) h k = ground (
  arith,
  h,
  k,
  text_lt-cons e c u s,
  text_lt-cons e d u t,
  text_lt-cons d c t s,
  text_lt-shift s t u,
  text_lt-connected u t,
  text_lt-asym u t,
)

-- The order of texts.
pub text_lt-IsOrder : IsOrder text_lt (λ s. s)
text_lt-IsOrder = record {
  asym = text_lt-asym;
  connected = text_lt-connected;
  shift = text_lt-shift;
}
