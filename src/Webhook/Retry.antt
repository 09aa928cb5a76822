-- ===== src/Webhook/Retry.antt =====
-- internal/webhook/retry.go: the backoff schedule. Durations are nanoseconds. `float64` values are
-- exact here: `rand.Float64()` is `k / 2^53` with `k` below `2^53`, an argument, and the factor
-- `1 + 0.2 * (2 * k / 2^53 - 1)` is `(4 * 2^53 + 2 * k) / (5 * 2^53)`.
use postbox.Common.{
  ℕ, zero, suc, ◌+◌, ◌*◌, ◌/◌, ◌^◌, ◌≤◌, ◌<◌, ◌≡◌, Bool, ◌&&◌, not, nat_Eq, ◌==◌, leb, ltb,
  if◌then◌else◌, arith,
}
use native.Mathlib.Nat.{pow-suc}

abbrev pub second : ℕ
second = 1_000_000_000

abbrev pub retry_base : ℕ
retry_base = 10 * second

abbrev pub retry_max : ℕ
retry_max = 3600 * second

abbrev pub default_max_try : ℕ
default_max_try = 5

abbrev pub unit_float : ℕ
unit_float = 2 ^ 53

-- The delay before the jitter.
unfoldable pub retry_delay : ℕ → ℕ
retry_delay n = let delay = retry_base * 2 ^ n in if ltb retry_max delay then retry_max else delay

-- `NextRetryAt` at the time `now`, where `rand.Float64()` returns `k / 2^53`.
unfoldable pub next_retry_at : ℕ → ℕ → ℕ → ℕ
next_retry_at now k n = now + retry_delay n * (4 * unit_float + 2 * k) / (5 * unit_float)

unfoldable pub is_permanent_failure : ℕ → Bool
is_permanent_failure http_status =
    leb 400 http_status && ltb http_status 500 && not (http_status == 429)

-- The delay starts at the base, and each further attempt doubles it up to the maximum.
pub retry_delay-suc :
    (n : ℕ)
    → retry_delay (suc n)
      ≡ (if ltb retry_max (2 * retry_delay n) then retry_max else 2 * retry_delay n)
unfolding retry_delay
retry_delay-suc n = rw pow-suc (ground arith)

two_pow_pos : (n : ℕ) → 1 ≤ 2 ^ n
two_pow_pos zero = omega arith
two_pow_pos (suc n) = rw pow-suc (omega (arith, two_pow_pos n))

pub retry_delay_bounds : (n : ℕ) → (retry_base ≤ retry_delay n) × (retry_delay n ≤ retry_max)
unfolding retry_delay
retry_delay_bounds n = ground (arith, two_pow_pos n)

-- The jitter moves the delay by a fifth at most, whatever the random number is.
pub next_retry_at_bounds :
    (now k n : ℕ)
    → k < unit_float
    → (now + 4 * retry_delay n / 5 ≤ next_retry_at now k n)
      × (next_retry_at now k n ≤ now + 6 * retry_delay n / 5)
unfolding next_retry_at
next_retry_at_bounds now k n h =
    let d = retry_delay n in
    let p : d * k ≤ d * unit_float = grind arith in (omega arith, omega arith)
