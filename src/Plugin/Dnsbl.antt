-- ===== src/Plugin/Dnsbl.antt =====
-- internal/plugin/dnsbl.go: messages from addresses that DNS block-lists name. What the resolver answers
-- at a time is an argument, and so are the parser of addresses and the readings of the clock, one for
-- each zone.
pub mod Cached
use Prim.Native.String.{◌++◌ as str_append}
use postbox.Common.{
  ℕ, suc, ◌+◌, ◌*◌, ◌/◌, ◌%◌, String, Bool, true, false, not, Option, none, some, List, [], ◌∷◌,
  nat_Eq, string_Eq, ◌==◌, ltb, if◌then◌else◌, length, Result, ok, err,
}
use postbox.Common.Map.{Map}
use postbox.Store.{read}
use postbox.Plugin.SmtpSecurity.{AddressLib}
use postbox.Plugin.VerdictCache.{Cache, cached, remember}

pub record DnsblConfig : Type 0 where
  pub zones : List String
  pub cache_ttl : ℕ
  pub fail_open : Bool

-- `NewDNSBL`
unfoldable pub with_defaults : DnsblConfig → DnsblConfig
with_defaults cfg = record cfg {
  cache_ttl = if cfg.cache_ttl == 0 then 300 * 1_000_000_000 else cfg.cache_ttl;
}

-- `net.LookupHost`: addresses, no such name, or another error.
pub data DnsAnswer : Type 0 where
  addresses : List String → DnsAnswer
  no_such_host : DnsAnswer
  lookup_failed : String → DnsAnswer

-- The result of a lookup.
unfoldable pub verdict_of : DnsAnswer → Result String Bool
verdict_of (addresses addrs) = ok (ltb 0 (length addrs))
verdict_of no_such_host = ok false
verdict_of (lookup_failed e) = err e

-- `%d` of an octet.
abbrev pub digit : ℕ → String
digit n =
    if n == 0
    then "0"
    else if n == 1
    then "1"
    else if n == 2
    then "2"
    else if n == 3
    then "3"
    else if n == 4
    then "4"
    else if n == 5
    then "5"
    else if n == 6
    then "6"
    else if n == 7
    then "7"
    else if n == 8
    then "8"
    else "9"

unfoldable pub octet : ℕ → String
octet n =
    if ltb n 10
    then digit n
    else if ltb n 100
    then str_append (digit (n / 10)) (digit (n % 10))
    else str_append (digit (n / 100)) (str_append (digit (n / 10 % 10)) (digit (n % 10)))

pub record Ip4 : Type 0 where
  pub a : ℕ
  pub b : ℕ
  pub c : ℕ
  pub d : ℕ

-- `reverseIPv4`
unfoldable pub reverse_ipv4 : Ip4 → String
unfolding octet
reverse_ipv4 ip = str_append (octet ip.d) (
    str_append "." (
      str_append (octet ip.c)
        (str_append "." (str_append (octet ip.b) (str_append "." (octet ip.a))))))

abbrev pub cache_key : String → String → String
cache_key reversed zone = str_append zone (str_append ":" reversed)

abbrev pub host_name : String → String → String
host_name reversed zone = str_append reversed (str_append "." zone)

abbrev pub decided :
    DnsblConfig → ℕ → String → Result String Bool → Cache → Cache × Result String Bool
decided cfg now key (err e) cache = (cache, err e)
decided cfg now key (ok banned) cache = (remember cfg.cache_ttl now key banned cache, ok banned)

-- `queryZone`
unfoldable pub query_zone :
    DnsblConfig
    → (ℕ → String → DnsAnswer)
    → ℕ
    → String
    → String
    → Cache
    → Cache × Result String Bool
unfolding verdict_of
query_zone cfg dns now reversed zone cache = elim (cached now (cache_key reversed zone) cache) [
  | some banned ↦ (cache, ok banned)
  | none ↦
      decided cfg now (cache_key reversed zone) (verdict_of (dns now (host_name reversed zone)))
        cache
]

pub data Rejection : Type 0 where
  check_failed : String → Rejection
  listed_in : String → Rejection

-- What the loop does after one zone: `next` is the loop over the others.
abbrev pub after_zone :
    DnsblConfig
    → String
    → (Cache → Cache × Option Rejection)
    → Cache × Result String Bool
    → Cache × Option Rejection
after_zone cfg zone next (cache, err e) =
    if cfg.fail_open then next cache else (cache, some (check_failed e))
after_zone cfg zone next (cache, ok banned) =
    if banned then (cache, some (listed_in zone)) else next cache

-- The loop over the zones, with the reading of the clock for each.
unfoldable pub check_zones :
    DnsblConfig
    → (ℕ → String → DnsAnswer)
    → (ℕ → ℕ)
    → ℕ
    → String
    → List String
    → Cache
    → Cache × Option Rejection
unfolding query_zone
check_zones cfg dns clock k reversed [] cache = (cache, none)
check_zones cfg dns clock k reversed (zone ∷ zones) cache =
    after_zone cfg zone (check_zones cfg dns clock (suc k) reversed zones)
      (query_zone cfg dns (clock k) reversed zone cache)

abbrev pub peer_ip4 : AddressLib → (String → Option Ip4) → String → Option Ip4
peer_ip4 lib parse_ip4 addr = elim (lib.split_host addr) [
  | none ↦ none
  | some host ↦ parse_ip4 host
]

-- `BeforeSend`; `none` lets the message pass. `parse_ip4` is `net.ParseIP` with `To4`.
unfoldable pub before_send :
    AddressLib
    → (String → Option Ip4)
    → DnsblConfig
    → (ℕ → String → DnsAnswer)
    → (ℕ → ℕ)
    → Map String String
    → Cache
    → Cache × Option Rejection
unfolding check_zones reverse_ipv4
before_send lib parse_ip4 cfg dns clock headers cache =
    let addr = read "X-SMTP-Remote-Addr" headers in
    if length cfg.zones == 0
    then (cache, none)
    else if addr == ""
    then (cache, none)
    else elim (peer_ip4 lib parse_ip4 addr) [
      | none ↦ (cache, none)
      | some ip ↦ check_zones cfg dns clock 0 (reverse_ipv4 ip) cfg.zones cache
    ]
