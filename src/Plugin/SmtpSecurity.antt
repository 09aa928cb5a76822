-- ===== src/Plugin/SmtpSecurity.antt =====
-- internal/plugin/smtp_security.go. The lockout is that of the map in memory or that of a shared
-- store. Times are nanoseconds; the seconds of `Unix()` are counted from the same origin, since only
-- their order matters. The failure counter is the bit pattern of an int32. A method is one step;
-- `RecordAuthFailure` takes the mutex twice in its step.
pub mod Lockout
pub mod Checks
use Prim.Native.String.{len}
use postbox.Common.{
  ℕ, ◌+◌, ◌-◌, ◌*◌, ◌/◌, ◌%◌, ◌^◌, String, Bool, true, false, ◌&&◌, ◌||◌, not, Option, none, some,
  List, [], ◌∷◌, nat_Eq, string_Eq, ◌==◌, ltb, leb, if◌then◌else◌, Result, ok, err, length, any,
  map, after_last,
}
use postbox.Common.Map.{Map, get, put}
use postbox.Store.{read}

-- `net.SplitHostPort` (the host, or an error), `mail.ParseAddress` (the address, or an error),
-- `strings.ToLower` and `strings.EqualFold`.
pub record AddressLib : Type 0 where
  pub split_host : String → Option String
  pub parse_address : String → Option String
  pub to_lower : String → String
  pub equal_fold : String → String → Bool

pub record SecurityConfig : Type 0 where
  pub max_auth_failures_per_ip : ℕ
  pub lockout_duration : ℕ
  pub ip_lookup_ttl : ℕ
  pub envelope_spoof_check : Bool
  pub allowed_sender_domains : List String
  pub blocked_sender_domains : List String
  pub max_subject_bytes : ℕ
  pub require_authenticated_sender : Bool

abbrev pub second : ℕ
second = 1_000_000_000

abbrev or_default : ℕ → ℕ → ℕ
or_default n d = if n == 0 then d else n

-- The settings with which `NewSMTPSecurityPlugin` makes the plugin.
unfoldable pub with_defaults : SecurityConfig → SecurityConfig
with_defaults cfg = record cfg {
  lockout_duration = or_default cfg.lockout_duration (900 * second);
  ip_lookup_ttl = or_default cfg.ip_lookup_ttl (3600 * second);
  max_subject_bytes = or_default cfg.max_subject_bytes 998;
}

pub record IpEntry : Type 0 where
  pub failures : ℕ
  pub locked_until : ℕ
  pub last_seen : ℕ

abbrev pub IpMap : Type 0
IpMap = Map String IpEntry

-- `hostOnly`
unfoldable pub host_only : AddressLib → String → String
host_only lib addr = elim (lib.split_host addr) [ some host ↦ host | none ↦ addr ]

-- The entry of an address; a new one where there is none.
abbrev pub entry_of : Option IpEntry → IpEntry
entry_of (some e) = e
entry_of none = record { failures = 0; locked_until = 0; last_seen = 0 }

abbrev pub unix : ℕ → ℕ
unix t = t / second

-- `int(e.failures.Add(1)) >= max`: a counter from `2 ^ 31` on is negative.
abbrev pub reaches : ℕ → ℕ → Bool
reaches max n = ltb n (2 ^ 31) && leb max n

-- One failure at the time `now`, on the entry of the address.
unfoldable pub fail_entry : SecurityConfig → ℕ → IpEntry → IpEntry × Bool
fail_entry cfg now e =
    let n = (e.failures + 1) % 2 ^ 32 in
    if reaches cfg.max_auth_failures_per_ip n
    then (
      record e { failures = n; locked_until = now + cfg.lockout_duration; last_seen = unix now },
      true,
    )
    else (record e { failures = n; last_seen = unix now }, false)

record_failure : SecurityConfig → ℕ → String → IpMap → IpMap × Bool
record_failure cfg now ip m =
    let (e, locked) = fail_entry cfg now (entry_of (get ip m)) in (put ip e m, locked)

-- `RecordAuthFailure`
unfoldable pub record_auth_failure : AddressLib → SecurityConfig → ℕ → String → IpMap → IpMap × Bool
unfolding record_failure
record_auth_failure lib cfg now remote_addr m =
    if cfg.max_auth_failures_per_ip == 0
    then (m, false)
    else record_failure cfg now (host_only lib remote_addr) m

-- The time until which an address is locked out; 0 where it has no entry.
abbrev pub locked_until : Option IpEntry → ℕ
locked_until none = 0
locked_until (some e) = e.locked_until

-- `IsLockedOut`, over the map in memory.
unfoldable pub is_locked_out : AddressLib → SecurityConfig → ℕ → String → IpMap → Bool
is_locked_out lib cfg now remote_addr m =
    if cfg.max_auth_failures_per_ip == 0
    then false
    else elim (get (host_only lib remote_addr) m) [ none ↦ false | some e ↦ ltb now e.locked_until ]

-- Where the lockouts stand: the map, or a store that is asked for a host and may fail.
pub data LockoutState : Type 0 where
  in_memory : IpMap → LockoutState
  lockout_store : (String → Result String Bool) → LockoutState

abbrev store_answer : Result String Bool → Bool
store_answer (ok locked) = locked
store_answer (err e) = false

-- `IsLockedOut`, wherever the lockouts stand; a failure of the store is logged and locks nobody out.
unfoldable pub is_locked_out_of : AddressLib → SecurityConfig → ℕ → String → LockoutState → Bool
is_locked_out_of lib cfg now remote_addr (in_memory m) = is_locked_out lib cfg now remote_addr m
is_locked_out_of lib cfg now remote_addr (lockout_store ask) =
    if cfg.max_auth_failures_per_ip == 0
    then false
    else store_answer (ask (host_only lib remote_addr))

-- `evict`: the entries that were idle for the TTL and are not locked out leave the map.
unfoldable pub evict : SecurityConfig → ℕ → IpMap → IpMap
evict cfg now [] = []
evict cfg now ((ip, e) ∷ m) =
    let rest = evict cfg now m in
    if ltb e.last_seen (unix (now - cfg.ip_lookup_ttl)) && ltb e.locked_until now
    then rest
    else (ip, e) ∷ rest

pub record Draft : Type 0 where
  pub headers : Map String String
  pub sender_id : String
  pub subject : String

pub data Rejection : Type 0 where
  locked_out blocked_domain domain_not_allowed : String → Rejection
  envelope_mismatch : String → String → Rejection
  subject_too_long : ℕ → Rejection
  unauthenticated : Rejection

abbrev pub member : String → List String → Bool
member x xs = any (λ y. y == x) xs

module _ (lib : AddressLib) where
  -- `senderDomain`
  unfoldable pub sender_domain : String → String
  sender_domain email = elim (after_last b'@' email) [
    | some domain ↦ lib.to_lower domain
    | none ↦ ""
  ]

  -- `parseEmailAddr`
  unfoldable pub parse_email_addr : String → String
  parse_email_addr header = elim (lib.parse_address header) [ some addr ↦ addr | none ↦ header ]

  check_lockout : SecurityConfig → ℕ → LockoutState → Draft → Option Rejection
  check_lockout cfg now m d =
      let remote_addr = read "X-SMTP-Remote-Addr" d.headers in
      if not (remote_addr == "") && is_locked_out_of lib cfg now remote_addr m
      then some (locked_out (host_only lib remote_addr))
      else none

  check_domain : SecurityConfig → Draft → Option Rejection
  check_domain cfg d =
      let domain = sender_domain d.sender_id in
      if d.sender_id == ""
      then none
      else if member domain (map lib.to_lower cfg.blocked_sender_domains)
      then some (blocked_domain domain)
      else if ltb 0 (length cfg.allowed_sender_domains)
          && not (member domain (map lib.to_lower cfg.allowed_sender_domains))
      then some (domain_not_allowed domain)
      else none

  check_envelope : SecurityConfig → Draft → Option Rejection
  check_envelope cfg d =
      let envelope_from = parse_email_addr (read "X-SMTP-Envelope-From" d.headers) in
      if cfg.envelope_spoof_check
        && not (envelope_from == "")
        && not (d.sender_id == "")
        && not (lib.equal_fold envelope_from d.sender_id)
      then some (envelope_mismatch envelope_from d.sender_id)
      else none

  check_subject : SecurityConfig → Draft → Option Rejection
  check_subject cfg d =
      if ltb 0 cfg.max_subject_bytes && ltb cfg.max_subject_bytes (len d.subject)
      then some (subject_too_long (len d.subject))
      else none

  check_sender : SecurityConfig → Draft → Option Rejection
  check_sender cfg d =
      if cfg.require_authenticated_sender && d.sender_id == "" then some unauthenticated else none

  abbrev or_next : Option Rejection → Option Rejection → Option Rejection
  or_next (some r) next = some r
  or_next none next = next

  -- `BeforeSend`: the first check that rejects decides; `none` lets the message pass.
  unfoldable pub before_send : SecurityConfig → ℕ → LockoutState → Draft → Option Rejection
  unfolding check_lockout check_domain check_envelope check_subject check_sender
  before_send cfg now m d = or_next (check_lockout cfg now m d) (
      or_next (check_domain cfg d)
        (or_next (check_envelope cfg d) (or_next (check_subject cfg d) (check_sender cfg d))))
