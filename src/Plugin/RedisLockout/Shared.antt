-- ===== src/Plugin/RedisLockout/Shared.antt =====
-- How long, and on which nodes, a lockout holds.
use postbox.Common.{
  ℕ, ◌+◌, ◌≤◌, ◌<◌, String, Bool, true, false, Option, none, some, ◌≡◌, ap, nat_Eq, string_Eq, ◌==◌,
  leb, Result, ok, err, arith, Bool-cases, inl, inr,
}
use postbox.Plugin.SmtpSecurity.{AddressLib, SecurityConfig, host_only}
use postbox.Plugin.RedisLockout.{
  Redis, IsRedis, blocked_key, counter_key, LockoutError, block, after_expire, after_incr,
  record_failure, is_blocked, is_there, or_open, record_shared, is_locked_out_shared,
}

module _ {R : Type 0} (redis : Redis R) (prefix : String) (law : IsRedis redis) where
  module _ (now later : ℕ) (ip : String) (max window lockout : ℕ) (from : now ≤ later)
      (until : later < now + lockout) where
    block-is_blocked :
        (r : R)
        → (block redis prefix now ip lockout r).1 ≡ ok true
        → is_blocked redis prefix later ip (block redis prefix now ip lockout r).0 ≡ ok true
    unfolding is_blocked
    block-is_blocked r h =
        elim (Bool-cases (redis.set now (blocked_key prefix ip) "1" lockout r).1) [
          | inl a ↦
              ap is_there
                (law.exists-set now later (blocked_key prefix ip) "1" lockout r from until a)
          | inr a ↦ absurd (ground (arith, a))
        ]

    expire-is_blocked :
        (n : ℕ) (p : R × Bool)
        → (after_expire redis prefix now ip max lockout n p).1 ≡ ok true
        → is_blocked redis prefix later ip (after_expire redis prefix now ip max lockout n p).0
          ≡ ok true
    expire-is_blocked n (r, false) h = cc
    expire-is_blocked n (r, true) h = elim (Bool-cases (leb max n)) [
      | inl e ↦ rw e (block-is_blocked r (rw e at h))
      | inr e ↦ absurd (ground (arith, e))
    ]

    incr-is_blocked :
        (p : R × Option ℕ)
        → (after_incr redis prefix now ip max window lockout p).1 ≡ ok true
        → is_blocked redis prefix later ip (after_incr redis prefix now ip max window lockout p).0
          ≡ ok true
    incr-is_blocked (r, none) h = cc
    incr-is_blocked (r, some n) h = expire-is_blocked n _ h

  or_open-true : (x : Result LockoutError Bool) → or_open redis prefix x ≡ true → x ≡ ok true
  or_open-true (ok b) h = ap ok h
  or_open-true (err e) h = cc

  -- Where a failed AUTH attempt locks its address out on one node, every node with the same settings and
  -- Redis sees the address locked out, from then on and until the lockout's duration has passed, on
  -- whatever port it connects.
  pub is_locked_out_shared-record_shared :
      (lib : AddressLib) (cfg : SecurityConfig) (now later : ℕ) (addr addr' : String) (r : R)
      → now ≤ later
      → later < now + cfg.lockout_duration
      → host_only lib addr ≡ host_only lib addr'
      → (record_shared redis prefix lib cfg now addr r).1 ≡ true
      → is_locked_out_shared redis prefix lib cfg later addr'
          (record_shared redis prefix lib cfg now addr r).0
        ≡ true
  unfolding record_shared is_locked_out_shared record_failure
  is_locked_out_shared-record_shared lib cfg now later addr addr' r from until same h =
      elim (Bool-cases (cfg.max_auth_failures_per_ip == 0)) [
        | inl e ↦ absurd (ground (arith, e))
        | inr e ↦
            let ip = host_only lib addr in
            let p = redis.incr now (counter_key prefix ip) r in
            let h' =
              or_open-true
                (after_incr redis prefix now ip cfg.max_auth_failures_per_ip cfg.ip_lookup_ttl
                  cfg.lockout_duration p).1
                (rw e at h) in
            rw (e, ← same)
              (ap (or_open redis prefix) (
                incr-is_blocked now later (host_only lib addr) cfg.max_auth_failures_per_ip
                  cfg.ip_lookup_ttl cfg.lockout_duration from until p h'))
      ]
