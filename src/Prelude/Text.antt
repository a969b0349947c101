-- ===== src/Prelude/Text.antt =====
-- Texts: concatenation, the empty text, decimal numbers, containment.
use Prim.Native.Nat.{ℕ, zero, suc, ◌+◌, ◌/◌, ◌%◌}
use Prim.Native.String.{String, ◌++◌}
use mathlib.Core.Bool.{Bool, false, not}
use text.Mathlib.Text.{◌==◌, find?}
use poc_controller.Prelude.Tests.{ltb, is_none, if◌then◌else◌}
use native.Mathlib.Omega.{arith}
use text.Mathlib.TextEquality.{eq_iff}
use text.Mathlib.TextLemmas.{append-eq-nil_iff}
use mathlib.Core.Logic.{◌≢◌}
use mathlib.Core.Path.{◌≡◌, refl}

infixr 66 ◌^^◌
abbrev pub ◌^^◌ : String → String → String
s ^^ t = s ++ t

abbrev pub is_empty : String → Bool
is_empty s = s == ""

-- strings.Contains
abbrev pub contains_text : String → String → Bool
contains_text s t = not (is_none (find? s t))

digit : ℕ → String
digit zero = "0"
digit (suc zero) = "1"
digit (suc (suc zero)) = "2"
digit (suc (suc (suc zero))) = "3"
digit (suc (suc (suc (suc zero)))) = "4"
digit (suc (suc (suc (suc (suc zero))))) = "5"
digit (suc (suc (suc (suc (suc (suc zero)))))) = "6"
digit (suc (suc (suc (suc (suc (suc (suc zero))))))) = "7"
digit (suc (suc (suc (suc (suc (suc (suc (suc zero)))))))) = "8"
digit _ = "9"

decimal_fuel : ℕ → ℕ → String
unfolding digit
decimal_fuel zero n = ""
decimal_fuel (suc f) n =
    let rest = decimal_fuel f (n / 10) in if ltb n 10 then digit n else rest ++ digit (n % 10)

-- strconv.Itoa of a number that is not negative; n + 1 rounds of fuel are more than its digits.
unfoldable pub decimal : ℕ → String
unfolding decimal_fuel
decimal n = decimal_fuel (n + 1) n

decimal_test : decimal 1207 ^^ "x" ≡ "1207x"
unfolding decimal
decimal_test = refl

-- A text with a part that is not empty is not empty.
pub is_empty_right : (s t : String) → is_empty t ≡ false → is_empty (s ^^ t) ≡ false
is_empty_right s t h =
    let nonempty : s ^^ t ≢ "" = λ e. ground (arith, append-eq-nil_iff.0 e, eq_iff t "") in
    ground (arith, eq_iff (s ^^ t) "", nonempty)

pub is_empty_left : (s t : String) → is_empty s ≡ false → is_empty (s ^^ t) ≡ false
is_empty_left s t h =
    let nonempty : s ^^ t ≢ "" = λ e. ground (arith, append-eq-nil_iff.0 e, eq_iff s "") in
    ground (arith, eq_iff (s ^^ t) "", nonempty)

pub is_empty_joined : (s t u : String) → is_empty t ≡ false → is_empty (s ^^ t ^^ u) ≡ false
is_empty_joined s t u h = is_empty_right s (t ^^ u) (is_empty_left t u h)
