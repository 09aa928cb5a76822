-- ===== src/Plugin/SecurityAgent.antt =====
-- internal/plugin/security_agent.go: the limits on senders, recipients, bodies, headers and attachment
-- names. The token bucket of golang.org/x/time/rate is a parameter: its state, a full bucket, and
-- `Allow` at a time. Times are nanoseconds; a limit that is not positive is no limit, written 0.
pub mod Extensions
pub mod Buckets
pub mod Checks
use Prim.Native.Char.{code}
use Prim.Native.String.{len}
use postbox.Common.{
  ℕ, zero, suc, ◌-◌, ◌*◌, ◌/◌, String, Bool, true, false, ◌&&◌, ◌||◌, not, Option, none, some, List,
  [], ◌∷◌, nat_Eq, string_Eq, ◌==◌, ltb, if◌then◌else◌, length, any, map, size,
}
use postbox.Common.Map.{Map, get, put}

pub record AgentConfig : Type 0 where
  pub max_recipients : ℕ
  pub max_body_bytes : ℕ
  pub rate_per_sender : ℕ
  pub burst_per_sender : ℕ
  pub sender_ttl : ℕ
  pub blocked_extensions : Option (List String)

abbrev pub second : ℕ
second = 1_000_000_000

abbrev pub default_blocked_extensions : List String
default_blocked_extensions =
    ".exe" ∷ ".bat" ∷ ".cmd" ∷ ".sh" ∷ ".ps1" ∷ ".vbs" ∷ ".js" ∷ ".jar" ∷ ".msi" ∷ ".dll" ∷ ".scr"
    ∷ ".pif" ∷ ".com" ∷ []

-- The settings with which `NewSecurityAgent` makes the agent.
unfoldable pub with_defaults : AgentConfig → AgentConfig
with_defaults cfg = record cfg {
  burst_per_sender = if cfg.burst_per_sender == 0 then 1 else cfg.burst_per_sender;
  sender_ttl = if cfg.sender_ttl == 0 then 600 * second else cfg.sender_ttl;
}

-- `blockedExt`: the keys of the set.
unfoldable pub blocked_set : (String → String) → AgentConfig → List String
blocked_set to_lower cfg =
    map to_lower
      (elim cfg.blocked_extensions [ none ↦ default_blocked_extensions | some exts ↦ exts ])

-- `containsNewline`
unfoldable pub contains_newline : String → Bool
contains_newline String.[] = false
contains_newline (String.◌∷◌ c s) = code c == 13 || code c == 10 || contains_newline s

-- `s[:idx]` and `s[idx:]` where the character stands last at `idx`; `none` where it does not stand.
unfoldable pub split_last : ℕ → String → Option (String × String)
split_last x String.[] = none
split_last x (String.◌∷◌ c s) = elim (split_last x s) [
  | some (front, ext) ↦ some (String.◌∷◌ c front, ext)
  | none ↦ if code c == x then some ("", String.◌∷◌ c s) else none
]

abbrev pub member : String → List String → Bool
member x xs = any (λ y. y == x) xs

-- The loop of `blockedExtension`; `none` where the fuel runs out.
unfoldable pub blocked_loop : ℕ → List String → String → Option String
blocked_loop zero blocked lower = none
blocked_loop (suc fuel) blocked lower = elim (split_last b'.' lower) [
  | none ↦ some ""
  | some (front, ext) ↦
      let rest = blocked_loop fuel blocked front in if member ext blocked then some ext else rest
]

-- `blockedExtension`, of a name in lower case. There are fewer rounds than characters, and one.
unfoldable pub blocked_extension : List String → String → Option String
unfolding blocked_loop
blocked_extension blocked lower = blocked_loop (suc (size lower)) blocked lower

pub record Draft : Type 0 where
  pub sender_id : String
  pub recipient_ids : List String
  pub body : String
  pub headers : Map String String
  pub filenames : List String

pub data Rejection : Type 0 where
  too_fast : String → Rejection
  too_many_recipients body_too_long : ℕ → Rejection
  illegal_header : String → Rejection
  bad_extension : String → Option String → Rejection

-- The loop over the headers.
unfoldable pub check_headers : Map String String → Option Rejection
check_headers [] = none
check_headers ((k, v) ∷ rest) =
    let next = check_headers rest in
    if contains_newline k || contains_newline v then some (illegal_header k) else next

-- The loop over the attachments: any result but the empty text is an extension.
unfoldable pub check_filenames : (String → String) → List String → List String → Option Rejection
check_filenames to_lower blocked [] = none
check_filenames to_lower blocked (name ∷ rest) =
    let next = check_filenames to_lower blocked rest in
    let ext = blocked_extension blocked (to_lower name) in
    elim ext [
      | none ↦ some (bad_extension name none)
      | some e ↦ if e == "" then next else some (bad_extension name (some e))
    ]

abbrev pub or_next : Option Rejection → Option Rejection → Option Rejection
or_next (some r) next = some r
or_next none next = next

-- The checks of `BeforeSend` but the first, in order.
unfoldable pub check_content : (String → String) → AgentConfig → Draft → Option Rejection
check_content to_lower cfg d =
    if ltb 0 cfg.max_recipients && ltb cfg.max_recipients (length d.recipient_ids)
    then some (too_many_recipients (length d.recipient_ids))
    else if ltb 0 cfg.max_body_bytes && ltb cfg.max_body_bytes (len d.body)
    then some (body_too_long (len d.body))
    else or_next (check_headers d.headers)
        (check_filenames to_lower (blocked_set to_lower cfg) d.filenames)

pub record SenderEntry (Bucket : Type 0) : Type 0 where
  pub lim : Bucket
  pub last_sec : ℕ

module _ {Bucket : Type 0} where
  -- `limiterFor`, at a second: the bucket of the sender, and the map with the time of its use.
  unfoldable pub limiter_for :
      Bucket
      → ℕ
      → String
      → Map String (SenderEntry Bucket)
      → Map String (SenderEntry Bucket) × Bucket
  limiter_for full now sender m = elim (get sender m) [
    | none ↦ (put sender (record { lim = full; last_sec = now }) m, full)
    | some e ↦ (put sender (record e { last_sec = now }) m, e.lim)
  ]

  -- `evict`, at a time.
  unfoldable pub evict :
      AgentConfig → ℕ → Map String (SenderEntry Bucket) → Map String (SenderEntry Bucket)
  evict cfg now [] = []
  evict cfg now ((k, e) ∷ m) =
      let rest = evict cfg now m in
      if ltb e.last_sec ((now - cfg.sender_ttl) / second) then rest else (k, e) ∷ rest

  -- `Allow` of the sender's bucket, which the map shares.
  unfoldable pub take_token :
      (ℕ → Bucket → Bucket × Bool)
      → Bucket
      → ℕ
      → String
      → Map String (SenderEntry Bucket)
      → Map String (SenderEntry Bucket) × Bool
  unfolding limiter_for
  take_token allow full now sender m =
      let (m', lim) = limiter_for full (now / second) sender m in
      let (lim', allowed) = allow now lim in
      (put sender (record { lim = lim'; last_sec = now / second }) m', allowed)

  -- `BeforeSend`; `none` lets the message pass.
  unfoldable pub before_send :
      (String → String)
      → (ℕ → Bucket → Bucket × Bool)
      → Bucket
      → AgentConfig
      → ℕ
      → Draft
      → Map String (SenderEntry Bucket)
      → Map String (SenderEntry Bucket) × Option Rejection
  before_send to_lower allow full cfg now d m =
      let (m', allowed) = take_token allow full now d.sender_id m in
      if cfg.rate_per_sender == 0
      then (m, check_content to_lower cfg d)
      else (m', if allowed then check_content to_lower cfg d else some (too_fast d.sender_id))
