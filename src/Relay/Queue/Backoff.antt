-- ===== src/Relay/Queue/Backoff.antt =====
-- The delay between two attempts.
use postbox.Common.{
  ℕ, zero, suc, ◌-◌, ◌*◌, ◌%◌, ◌^◌, ◌≤◌, ◌<◌, ◌≡◌, ltb, if◌then◌else◌, arith, refl,
}
use native.Mathlib.Nat.{pow-suc}
use postbox.Relay.Queue.{second, QueueConfig, with_defaults, backoff, shift_left}

-- With a positive maximum, the delay is positive and at most the maximum, whatever bits the shift
-- loses.
pub backoff_bounds :
    (cfg : QueueConfig) (attempts : ℕ)
    → 0 < cfg.max_delay
    → (0 < backoff cfg attempts) × (backoff cfg attempts ≤ cfg.max_delay)
unfolding backoff
backoff_bounds cfg attempts h = ground arith

doubled_pos : (base n : ℕ) → 0 < base → 0 < base * 2 ^ n
doubled_pos base zero h = omega arith
doubled_pos base (suc n) h = rw pow-suc (omega (arith, doubled_pos base n h))

-- While the doubled base is positive and fits an int64, the delay is that value, cut at the
-- maximum.
pub backoff-doubles :
    (cfg : QueueConfig) (attempts : ℕ)
    → 0 < cfg.base_delay
    → cfg.base_delay * 2 ^ attempts < 2 ^ 63
    → backoff cfg (suc attempts) ≡ (
        if ltb cfg.max_delay (cfg.base_delay * 2 ^ attempts)
        then cfg.max_delay
        else cfg.base_delay * 2 ^ attempts)
unfolding backoff shift_left
backoff-doubles cfg attempts pos h =
    let one : suc attempts - 1 ≡ attempts = omega arith in
    let positive : 0 < cfg.base_delay * 2 ^ attempts = doubled_pos cfg.base_delay attempts pos in
    let fits : cfg.base_delay * 2 ^ attempts % 2 ^ 64 ≡ cfg.base_delay * 2 ^ attempts =
      omega arith in
    rw one (rw fits (ground arith))

-- Under the default settings every attempt but the first waits twice as long as the one before.
pub backoff_default :
    (n : ℕ)
    → suc n < 7
    → let cfg =
        with_defaults (record { workers = 0; max_retries = 0; base_delay = 0; max_delay = 0 }) in
      (backoff cfg 1 ≡ 5 * second) × (backoff cfg (suc (suc n)) ≡ 2 * backoff cfg (suc n))
unfolding backoff with_defaults
backoff_default zero h = (refl, refl)
backoff_default (suc zero) h = (refl, refl)
backoff_default (suc (suc zero)) h = (refl, refl)
backoff_default (suc (suc (suc zero))) h = (refl, refl)
backoff_default (suc (suc (suc (suc zero)))) h = (refl, refl)
backoff_default (suc (suc (suc (suc (suc zero))))) h = (refl, refl)
backoff_default (suc (suc (suc (suc (suc (suc n)))))) h = absurd (omega arith)
