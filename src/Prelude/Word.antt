-- ===== src/Prelude/Word.antt =====
-- Go's int64 as a bit pattern below 2 ^ 64: the increment wraps, the order is the signed one.
use Prim.Native.Nat.{ℕ, ◌+◌, ◌-◌, ◌%◌, ◌^◌, ◌<◌}
use mathlib.Core.Path.{◌≡◌}
use mathlib.Core.Bool.{Bool}
use native.Mathlib.Omega.{arith}
use poc_controller.Prelude.Tests.{ltb}

abbrev pub inc64 : ℕ → ℕ
inc64 n = (n + 1) % 2 ^ 64

-- a < b, read as signed numbers
abbrev pub lt64 : ℕ → ℕ → Bool
lt64 a b = ltb ((a + 2 ^ 63) % 2 ^ 64) ((b + 2 ^ 63) % 2 ^ 64)

-- The patterns of the numbers that are not negative and not the largest.
abbrev pub InRange : ℕ → Type 0
InRange n = n < 2 ^ 63 - 1

pub lt64_lt : (a b : ℕ) → a < 2 ^ 63 → b < 2 ^ 63 → lt64 a b ≡ ltb a b
lt64_lt a b h k = ground arith

pub inc64_suc : (n : ℕ) → n < 2 ^ 63 → inc64 n ≡ n + 1
inc64_suc n h = omega arith
