-- ===== src/Reconcile/Backoff.antt =====
-- internal/reconcile/backoff.go. The floating-point product is exact: 5 * 10 ^ 9 * 2 ^ k is 5 ^ 10
-- times a power of two, so a float64 holds it, or it overflows to +Inf, which is above the cap.
use Prim.Native.Nat.{min}
use native.Mathlib.Nat.{pow-succ', one-le-pow}
use native.Mathlib.Numerals.{add-one}
use poc_controller.Prelude.{
  ℕ, ◌+◌, ◌-◌, ◌*◌, ◌^◌, ◌≤◌, ◌<◌, ◌≡◌, refl, ltb, lt64, arith, not, if◌then◌else◌,
}

abbrev pub second : ℕ
second = 1000000000

abbrev pub backoff_base_delay : ℕ
backoff_base_delay = 5 * second

abbrev pub backoff_max_delay : ℕ
backoff_max_delay = 300 * second

abbrev pub stalled_recheck_interval : ℕ
stalled_recheck_interval = 1800 * second

-- ComputeBackoff; the count is an int64
unfoldable pub compute_backoff : ℕ → ℕ
compute_backoff failure_count =
    if not (lt64 1 failure_count)
    then backoff_base_delay
    else let delay = backoff_base_delay * 2 ^ (failure_count - 1) in
      if ltb backoff_max_delay delay then backoff_max_delay else delay

pow_pred : (m : ℕ) → 2 ^ (m + 2 - 1) ≡ 2 * 2 ^ (m + 1 - 1)
pow_pred m = rw (index (m + 1), index' m) (simp add-one (pow-succ' 2 m))
  where
    index : (k : ℕ) → m + 2 - 1 ≡ m + 1
    index k = omega arith

    index' : (k : ℕ) → m + 1 - 1 ≡ m
    index' k = omega arith

pow_pos : (k : ℕ) → 1 ≤ 2 ^ k
pow_pos k = one-le-pow k 2 (omega arith)

-- Every delay lies between the base delay and the cap, for every int64 count of failures, negative
-- ones (as bit patterns) included.
pub compute_backoff_bounds :
    (n : ℕ)
    → n < 2 ^ 64
    → (backoff_base_delay ≤ compute_backoff n) × (compute_backoff n ≤ backoff_max_delay)
unfolding compute_backoff
compute_backoff_bounds n h = (ground (arith, pow_pos (n - 1)), ground (arith, pow_pos (n - 1)))

-- The first failure waits the base delay, and each further failure doubles the delay up to the cap,
-- as long as the count is an int64.
pub compute_backoff_doubles :
    (n : ℕ)
    → n + 2 < 2 ^ 63
    → (compute_backoff 1 ≡ backoff_base_delay)
      × (compute_backoff (n + 2) ≡ min (2 * compute_backoff (n + 1)) backoff_max_delay)
unfolding compute_backoff
compute_backoff_doubles n h = (refl, ground (arith, pow_pred n, pow_pos (n + 1 - 1)))
