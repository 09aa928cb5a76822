-- ===== src/Plugin/RedisLockout.antt =====
-- internal/plugin/redis_lockout.go: the lockout store that the nodes of a cluster share, and the methods of
-- internal/plugin/smtp_security.go that use it. The Redis client is a parameter.
pub mod Shared
use Prim.Native.String.{◌++◌ as str_append}
use postbox.Common.{
  ℕ, ◌+◌, ◌≤◌, ◌<◌, String, Bool, true, false, Option, none, some, ◌≡◌, nat_Eq, string_Eq, ◌==◌,
  ltb, leb, if◌then◌else◌, Result, ok, err,
}
use postbox.Plugin.SmtpSecurity.{AddressLib, SecurityConfig, host_only}

-- INCR (the new value), EXPIRE, SET with an expiry and EXISTS (how many of the keys are there) at a
-- time; `none` and `false` are errors.
pub record Redis (R : Type 0) : Type 0 where
  pub incr : ℕ → String → R → R × Option ℕ
  pub expire : ℕ → String → ℕ → R → R × Bool
  pub set : ℕ → String → String → ℕ → R → R × Bool
  pub exists : ℕ → String → R → Option ℕ

-- What Redis documents of a SET with an expiry that succeeds, where its client stays connected: the
-- key is there until it expires.
pub record IsRedis {R : Type 0} (redis : Redis R) : Type 0 where
  pub exists-set :
      (now later : ℕ) (k v : String) (ttl : ℕ) (r : R)
      → now ≤ later
      → later < now + ttl
      → (redis.set now k v ttl r).1 ≡ true
      → redis.exists later k (redis.set now k v ttl r).0 ≡ some 1

abbrev pub default_key_prefix : String
default_key_prefix = "postbox:lockout"

-- `NewRedisLockoutStore`, of the key prefix of its settings.
unfoldable pub new_prefix : String → String
new_prefix key_prefix = if key_prefix == "" then default_key_prefix else key_prefix

abbrev pub counter_key : String → String → String
counter_key prefix ip = str_append prefix (str_append ":cnt:" ip)

abbrev pub blocked_key : String → String → String
blocked_key prefix ip = str_append prefix (str_append ":blocked:" ip)

-- The commands that fail.
pub data LockoutError : Type 0 where
  incr_failed expire_failed set_failed exists_failed : LockoutError

abbrev pub is_there : Option ℕ → Result LockoutError Bool
is_there none = err exists_failed
is_there (some n) = ok (ltb 0 n)

module _ {R : Type 0} (redis : Redis R) (prefix : String) where
  -- The end of `RecordFailure`.
  abbrev pub block : ℕ → String → ℕ → R → R × Result LockoutError Bool
  block now ip lockout r =
      let (r', set) = redis.set now (blocked_key prefix ip) "1" lockout r in
      (r', if set then ok true else err set_failed)

  abbrev pub after_expire : ℕ → String → ℕ → ℕ → ℕ → R × Bool → R × Result LockoutError Bool
  after_expire now ip max lockout n (r, expired) =
      if expired
      then (if leb max n then block now ip lockout r else (r, ok false))
      else (r, err expire_failed)

  abbrev pub after_incr : ℕ → String → ℕ → ℕ → ℕ → R × Option ℕ → R × Result LockoutError Bool
  after_incr now ip max window lockout (r, none) = (r, err incr_failed)
  after_incr now ip max window lockout (r, some n) =
      after_expire now ip max lockout n
        (if n == 1 then redis.expire now (counter_key prefix ip) window r else (r, true))

  -- `RecordFailure`
  unfoldable pub record_failure : ℕ → String → ℕ → ℕ → ℕ → R → R × Result LockoutError Bool
  record_failure now ip max window lockout r =
      after_incr now ip max window lockout (redis.incr now (counter_key prefix ip) r)

  -- `IsLockedOut`
  unfoldable pub is_blocked : ℕ → String → R → Result LockoutError Bool
  is_blocked now ip r = is_there (redis.exists now (blocked_key prefix ip) r)

  -- An error of the store counts as no lockout.
  abbrev pub or_open : Result LockoutError Bool → Bool
  or_open (ok locked) = locked
  or_open (err e) = false

  -- `RecordAuthFailure` of the plugin with the shared store
  unfoldable pub record_shared : AddressLib → SecurityConfig → ℕ → String → R → R × Bool
  unfolding record_failure
  record_shared lib cfg now remote_addr r =
      let (r', recorded) =
        record_failure now (host_only lib remote_addr) cfg.max_auth_failures_per_ip
          cfg.ip_lookup_ttl cfg.lockout_duration r in
      if cfg.max_auth_failures_per_ip == 0 then (r, false) else (r', or_open recorded)

  -- `IsLockedOut` of the plugin with the shared store
  unfoldable pub is_locked_out_shared : AddressLib → SecurityConfig → ℕ → String → R → Bool
  unfolding is_blocked
  is_locked_out_shared lib cfg now remote_addr r =
      if cfg.max_auth_failures_per_ip == 0
      then false
      else or_open (is_blocked now (host_only lib remote_addr) r)
