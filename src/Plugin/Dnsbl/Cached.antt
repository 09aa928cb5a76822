-- ===== src/Plugin/Dnsbl/Cached.antt =====
-- What the cache of a DNS block-list changes: nothing, while the answers of the DNS stay the same.
use Prim.Native.String.{◌++◌ as str_append}
use text.Mathlib.TextLemmas.{append_cancel_right}
use postbox.Common.{
  ℕ, suc, ◌+◌, String, Bool, true, false, ◌&&◌, length, not, Option, none, some, List, [], ◌∷◌, ◌≡◌,
  refl, string_Eq, nat_Eq, ◌==◌, all, if◌then◌else◌, Result, ok, err, arith, Bool-cases, inl, inr,
}
use postbox.Common.Map.{Map, get, get-put}
use postbox.Store.{read}
use postbox.Plugin.SmtpSecurity.{AddressLib}
use postbox.Plugin.VerdictCache.{Verdict, Cache, unexpired, cached, remember}
use postbox.Plugin.Dnsbl.{
  DnsblConfig, DnsAnswer, verdict_of, Ip4, reverse_ipv4, cache_key, host_name, decided, query_zone,
  Rejection, after_zone, check_zones, peer_ip4, before_send,
}

abbrev pub passes : Option Rejection → Bool
passes none = true
passes (some r) = false

-- What the plugin makes of a zone's answer.
abbrev pub admits : DnsblConfig → Result String Bool → Bool
admits cfg (ok banned) = not banned
admits cfg (err e) = cfg.fail_open

-- What the DNS says of an address in a zone.
abbrev pub listing : (String → DnsAnswer) → String → String → Result String Bool
listing dns reversed zone = verdict_of (dns (host_name reversed zone))

-- The cache holds nothing about the address but what the DNS says.
unfoldable pub Agrees : (String → DnsAnswer) → String → Cache → Type 0
Agrees dns reversed cache =
    (zone : String) (v : Verdict)
    → get (cache_key reversed zone) cache ≡ some v
    → listing dns reversed zone ≡ ok v.banned

cache_key-injective : (reversed z w : String) → cache_key reversed z ≡ cache_key reversed w → z ≡ w
cache_key-injective reversed z w e = append_cancel_right z w (str_append ":" reversed) e

length-zero : (zone : String) (zones : List String) → (length (zone ∷ zones) == 0) ≡ false
length-zero zone zones = ground arith

module _ (dns : String → DnsAnswer) (reversed : String) where
  remember-Agrees :
      (ttl now : ℕ) (zone : String) (b : Bool) (cache : Cache)
      → listing dns reversed zone ≡ ok b
      → Agrees dns reversed cache
      → Agrees dns reversed (remember ttl now (cache_key reversed zone) b cache)
  unfolding Agrees remember
  remember-Agrees ttl now zone b cache h agrees w v e =
      let key = cache_key reversed zone in
      ground (
        arith,
        get-put key (cache_key reversed w) (record { banned = b; expires = now + ttl }) cache,
        string_Eq.beq_iff key (cache_key reversed w),
        cache_key-injective reversed zone w,
        agrees w v,
        h,
      )

  decided-Agrees :
      (cfg : DnsblConfig) (now : ℕ) (zone : String) (r : Result String Bool) (cache : Cache)
      → listing dns reversed zone ≡ r
      → Agrees dns reversed cache
      → ((decided cfg now (cache_key reversed zone) r cache).1 ≡ r)
        × Agrees dns reversed (decided cfg now (cache_key reversed zone) r cache).0
  decided-Agrees cfg now zone (err e) cache h agrees = (refl, agrees)
  decided-Agrees cfg now zone (ok b) cache h agrees =
      (refl, remember-Agrees cfg.cache_ttl now zone b cache h agrees)

  unexpired-listing :
      (now : ℕ) (zone : String) (o : Option Verdict) (b : Bool)
      → ((v : Verdict) → o ≡ some v → listing dns reversed zone ≡ ok v.banned)
      → unexpired now o ≡ some b
      → ok b ≡ listing dns reversed zone
  unexpired-listing now zone none b h e = ground arith
  unexpired-listing now zone (some v) b h e = ground (arith, h v refl)

  query_zone-Agrees :
      (cfg : DnsblConfig) (now : ℕ) (zone : String) (cache : Cache)
      → Agrees dns reversed cache
      → ((query_zone cfg (λ t. dns) now reversed zone cache).1 ≡ listing dns reversed zone)
        × Agrees dns reversed (query_zone cfg (λ t. dns) now reversed zone cache).0
  unfolding query_zone cached Agrees
  query_zone-Agrees cfg now zone cache agrees =
      answer (cached now (cache_key reversed zone) cache) refl
    where
      answer :
          (o : Option Bool)
          → cached now (cache_key reversed zone) cache ≡ o
          → let q : Cache × Result String Bool = elim o [
            | some banned ↦ (cache, ok banned)
            | none ↦
                decided cfg now
                  (cache_key reversed zone)
                  (verdict_of (dns (host_name reversed zone)))
                  cache
          ] in
            (q.1 ≡ listing dns reversed zone) × Agrees dns reversed q.0
      answer (some b) e = (
        unexpired-listing now zone (get (cache_key reversed zone) cache) b (agrees zone) e,
        agrees,
      )
      answer none e = decided-Agrees cfg now zone (listing dns reversed zone) cache refl agrees

  -- One zone, when the loop over the others is right.
  after_zone-Agrees :
      (cfg : DnsblConfig) (zone : String) (rest : Bool) (next : Cache → Cache × Option Rejection)
      (q : Cache × Result String Bool) (r : Result String Bool)
      → ((cache : Cache)
          → Agrees dns reversed cache
          → (passes (next cache).1 ≡ rest) × Agrees dns reversed (next cache).0)
      → (q.1 ≡ r) × Agrees dns reversed q.0
      → (passes (after_zone cfg zone next q).1 ≡ (admits cfg r && rest))
        × Agrees dns reversed (after_zone cfg zone next q).0
  after_zone-Agrees cfg zone rest next (cache, ok true) r h (e, agrees) =
      (ground (arith, e), agrees)
  after_zone-Agrees cfg zone rest next (cache, ok false) r h (e, agrees) =
      (ground (arith, e, (h cache agrees).0), (h cache agrees).1)
  after_zone-Agrees cfg zone rest next (cache, err x) r h (e, agrees) =
      elim (Bool-cases cfg.fail_open) [
        | inl p ↦ rw p (ground (arith, e, (h cache agrees).0), (h cache agrees).1)
        | inr p ↦ rw p (ground (arith, e), agrees)
      ]

  check_zones-Agrees :
      (cfg : DnsblConfig) (clock : ℕ → ℕ) (k : ℕ) (zones : List String) (cache : Cache)
      → Agrees dns reversed cache
      → let r = check_zones cfg (λ t. dns) clock k reversed zones cache in
        (passes r.1 ≡ all (λ zone. admits cfg (listing dns reversed zone)) zones)
        × Agrees dns reversed r.0
  unfolding check_zones
  check_zones-Agrees cfg clock k [] cache agrees = (refl, agrees)
  check_zones-Agrees cfg clock k (zone ∷ zones) cache agrees =
      after_zone-Agrees cfg zone (all (λ z. admits cfg (listing dns reversed z)) zones)
        (check_zones cfg (λ t. dns) clock (suc k) reversed zones)
        (query_zone cfg (λ t. dns) (clock k) reversed zone cache) (listing dns reversed zone)
        (check_zones-Agrees cfg clock (suc k) zones)
        (query_zone-Agrees cfg (clock k) zone cache agrees)

  check_zones-none :
      (cfg : DnsblConfig) (clock : ℕ → ℕ) (zones : List String) (cache : Cache)
      → Agrees dns reversed cache
      → let r =
          if length zones == 0
          then (cache, none)
          else check_zones cfg (λ t. dns) clock 0 reversed zones cache in
        (passes r.1 ≡ all (λ zone. admits cfg (listing dns reversed zone)) zones)
        × Agrees dns reversed r.0
  check_zones-none cfg clock [] cache agrees = (refl, agrees)
  check_zones-none cfg clock (zone ∷ zones) cache agrees =
      rw (length-zero zone zones) (check_zones-Agrees cfg clock 0 (zone ∷ zones) cache agrees)

-- While the DNS keeps its answers, and the cache holds nothing about the IPv4 address of the SMTP peer but
-- such answers: whatever the clock reads, the message passes exactly when no zone's answer refuses it: the
-- zone does not list the address, or its lookup fails and the plugin is set to fail open. The cache that
-- the check leaves again holds nothing about the address but the answers of the DNS.
pub cached-before_send :
    (lib : AddressLib) (parse_ip4 : String → Option Ip4) (cfg : DnsblConfig)
    (dns : String → DnsAnswer) (clock : ℕ → ℕ) (headers : Map String String) (cache : Cache)
    (ip : Ip4)
    → let addr = read "X-SMTP-Remote-Addr" headers in
      (addr == "") ≡ false
      → peer_ip4 lib parse_ip4 addr ≡ some ip
      → Agrees dns (reverse_ipv4 ip) cache
      → let r = before_send lib parse_ip4 cfg (λ t. dns) clock headers cache in
        (passes r.1 ≡ all (λ zone. admits cfg (listing dns (reverse_ipv4 ip) zone)) cfg.zones)
        × Agrees dns (reverse_ipv4 ip) r.0
unfolding before_send
cached-before_send lib parse_ip4 cfg dns clock headers cache ip sent peer agrees =
    rw (sent, peer) (check_zones-none dns (reverse_ipv4 ip) cfg clock cfg.zones cache agrees)
