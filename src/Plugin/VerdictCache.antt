-- ===== src/Plugin/VerdictCache.antt =====
-- The cache of verdicts that internal/plugin/crowdsec.go and internal/plugin/dnsbl.go share the shape of:
-- for a key, whether it is banned and until when that is believed.
use postbox.Common.{ℕ, ◌+◌, String, Bool, Option, none, some, string_Eq, ltb, if◌then◌else◌}
use postbox.Common.Map.{Map, get, put}

pub record Verdict : Type 0 where
  pub banned : Bool
  pub expires : ℕ

abbrev pub Cache : Type 0
Cache = Map String Verdict

abbrev pub unexpired : ℕ → Option Verdict → Option Bool
unexpired now none = none
unexpired now (some v) = if ltb now v.expires then some v.banned else none

-- The verdict that the cache holds for a key at a time.
unfoldable pub cached : ℕ → String → Cache → Option Bool
cached now key cache = unexpired now (get key cache)

unfoldable pub remember : ℕ → ℕ → String → Bool → Cache → Cache
remember ttl now key banned cache = put key (record { banned = banned; expires = now + ttl }) cache
