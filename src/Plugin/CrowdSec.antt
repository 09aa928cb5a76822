-- ===== src/Plugin/CrowdSec.antt =====
-- internal/plugin/crowdsec.go: messages from addresses that CrowdSec bans. What the LAPI answers to a query
-- is an argument: an HTTP failure, or a status with a body as `encoding/json` reads it.
pub mod Answers
use postbox.Common.{
  ℕ, ◌*◌, String, Bool, true, false, ◌||◌, not, Option, none, some, List, nat_Eq, string_Eq, ◌==◌,
  any, if◌then◌else◌, Result, ok, err,
}
use postbox.Common.Map.{Map}
use postbox.Store.{read}
use postbox.Plugin.SmtpSecurity.{AddressLib, host_only}
use postbox.Plugin.VerdictCache.{Cache, cached, remember}

-- The endpoint, its key and the time limit of a query stand behind the answers of the LAPI.
pub record CrowdSecConfig : Type 0 where
  pub fail_open : Bool
  pub cache_ttl : ℕ

-- `NewCrowdSec`
unfoldable pub with_defaults : CrowdSecConfig → CrowdSecConfig
with_defaults cfg = record cfg {
  cache_ttl = if cfg.cache_ttl == 0 then 30 * 1_000_000_000 else cfg.cache_ttl;
}

-- The body of a response: an error of reading, `null`, an error of parsing, or the types of the decisions.
pub data LapiBody : Type 0 where
  unreadable unparsable : String → LapiBody
  null_body : LapiBody
  decisions : List String → LapiBody

pub data LapiReply : Type 0 where
  unavailable : String → LapiReply
  replied : ℕ → LapiBody → LapiReply

abbrev pub read_body : LapiBody → Result String Bool
read_body (unreadable e) = err e
read_body null_body = ok false
read_body (unparsable e) = err e
read_body (decisions types) = ok (any (λ t. t == "ban") types)

-- `queryLAPI`
unfoldable pub query_lapi : LapiReply → Result String Bool
query_lapi (unavailable e) = err e
query_lapi (replied status body) =
    if status == 404
    then ok false
    else if status == 200
    then read_body body
    else err "LAPI returned another status"

-- What a query leaves in the cache.
abbrev pub decided :
    CrowdSecConfig → ℕ → String → Result String Bool → Cache → Cache × Result String Bool
decided cfg later ip (err e) cache = (cache, err e)
decided cfg later ip (ok banned) cache = (remember cfg.cache_ttl later ip banned cache, ok banned)

-- `isBanned`. The clock is read at the look into the cache and, later, at the write; `ask` is what the
-- LAPI answers in between.
unfoldable pub is_banned :
    CrowdSecConfig → (String → LapiReply) → ℕ → ℕ → String → Cache → Cache × Result String Bool
is_banned cfg ask now later ip cache = elim (cached now ip cache) [
  | some banned ↦ (cache, ok banned)
  | none ↦ decided cfg later ip (query_lapi (ask ip)) cache
]

pub data Rejection : Type 0 where
  check_failed banned_ip : String → Rejection

abbrev pub judge : CrowdSecConfig → String → Cache × Result String Bool → Cache × Option Rejection
judge cfg ip (cache, err e) = (cache, if cfg.fail_open then none else some (check_failed e))
judge cfg ip (cache, ok banned) = (cache, if banned then some (banned_ip ip) else none)

-- `BeforeSend`; `none` lets the message pass.
unfoldable pub before_send :
    AddressLib
    → CrowdSecConfig
    → (String → LapiReply)
    → ℕ
    → ℕ
    → Map String String
    → Cache
    → Cache × Option Rejection
unfolding is_banned
before_send lib cfg ask now later headers cache =
    let remote_addr = read "X-SMTP-Remote-Addr" headers in
    let ip = host_only lib remote_addr in
    if remote_addr == "" then (cache, none) else judge cfg ip (is_banned cfg ask now later ip cache)
