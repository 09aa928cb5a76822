-- ===== src/Plugin/CrowdSec/Answers.antt =====
-- What the cached answers of the LAPI decide.
use postbox.Common.{
  ℕ, ◌+◌, String, Bool, true, false, ◌||◌, not, Option, none, some, List, [], ◌∷◌, ◌≡◌, refl, ap,
  ◌∙◌, nat_Eq, string_Eq, ◌==◌, ltb, if◌then◌else◌, Result, ok, err, arith,
}
use postbox.Common.Map.{Map, get, get-put}
use postbox.Store.{read}
use postbox.Plugin.SmtpSecurity.{AddressLib, host_only}
use postbox.Plugin.VerdictCache.{Verdict, Cache, unexpired, cached, remember}
use postbox.Plugin.CrowdSec.{
  CrowdSecConfig, LapiReply, query_lapi, decided, is_banned, Rejection, judge, before_send,
}

-- The results of queries with their times and addresses, as the cache got them.
abbrev pub Answers : Type 0
Answers = List (ℕ × String × Result String Bool)

unfoldable pub answers : CrowdSecConfig → Answers → Cache → Cache
answers cfg [] cache = cache
answers cfg ((at, ip, r) ∷ rest) cache = answers cfg rest (decided cfg at ip r cache).0

abbrev update : ℕ → Result String Bool → Option (ℕ × Bool) → Option (ℕ × Bool)
update at (ok banned) last = some (at, banned)
update at (err e) last = last

-- The last query for an address that did not fail.
unfoldable pub last_answer : String → Answers → Option (ℕ × Bool) → Option (ℕ × Bool)
last_answer ip [] last = last
last_answer ip ((at, j, r) ∷ rest) last =
    last_answer ip rest (if j == ip then update at r last else last)

-- An answer that is old enough is not believed.
abbrev pub believed : CrowdSecConfig → ℕ → Option (ℕ × Bool) → Option Bool
believed cfg now none = none
believed cfg now (some (at, banned)) = if ltb now (at + cfg.cache_ttl) then some banned else none

abbrev as_verdict : CrowdSecConfig → Option (ℕ × Bool) → Option Verdict
as_verdict cfg none = none
as_verdict cfg (some (at, banned)) = some (record { banned = banned; expires = at + cfg.cache_ttl })

module _ (cfg : CrowdSecConfig) (ip : String) where
  get-decided :
      (at : ℕ) (j : String) (r : Result String Bool) (cache : Cache) (last : Option (ℕ × Bool))
      → get ip cache ≡ as_verdict cfg last
      → get ip (decided cfg at j r cache).0
        ≡ as_verdict cfg (if j == ip then update at r last else last)
  unfolding remember
  get-decided at j (err e) cache last h = ground arith
  get-decided at j (ok b) cache last h =
      ground (arith, get-put j ip (record { banned = b; expires = at + cfg.cache_ttl }) cache)

  get-answers :
      (as' : Answers) (cache : Cache) (last : Option (ℕ × Bool))
      → get ip cache ≡ as_verdict cfg last
      → get ip (answers cfg as' cache) ≡ as_verdict cfg (last_answer ip as' last)
  unfolding answers last_answer
  get-answers [] cache last h = h
  get-answers ((at, j, r) ∷ rest) cache last h =
      get-answers rest (decided cfg at j r cache).0 (if j == ip then update at r last else last)
        (get-decided at j r cache last h)

  unexpired-as_verdict :
      (now : ℕ) (last : Option (ℕ × Bool))
      → unexpired now (as_verdict cfg last) ≡ believed cfg now last
  unexpired-as_verdict now none = refl
  unexpired-as_verdict now (some (at, b)) = refl

  cached-answers :
      (now : ℕ) (as' : Answers)
      → cached now ip (answers cfg as' []) ≡ believed cfg now (last_answer ip as' none)
  unfolding cached get
  cached-answers now as' =
      ap (unexpired now) (get-answers as' [] none refl)
      ∙ unexpired-as_verdict now (last_answer ip as' none)

abbrev pub passes : Option Rejection → Bool
passes none = true
passes (some r) = false

-- What the plugin makes of an answer.
abbrev pub admits : CrowdSecConfig → Result String Bool → Bool
admits cfg (ok banned) = not banned
admits cfg (err e) = cfg.fail_open

abbrev pub or_ask : Option Bool → Result String Bool → Result String Bool
or_ask (some banned) r = ok banned
or_ask none r = r

passes-judge :
    (cfg : CrowdSecConfig) (ip : String) (p : Cache × Result String Bool)
    → passes (judge cfg ip p).1 ≡ admits cfg p.1
passes-judge cfg ip (cache, err e) = ground arith
passes-judge cfg ip (cache, ok b) = ground arith

decided-result :
    (cfg : CrowdSecConfig) (later : ℕ) (ip : String) (r : Result String Bool) (cache : Cache)
    → (decided cfg later ip r cache).1 ≡ r
decided-result cfg later ip (err e) cache = refl
decided-result cfg later ip (ok b) cache = refl

-- The two ways of `is_banned`.
is_banned-by_cache :
    (cfg : CrowdSecConfig) (ask : String → LapiReply) (later : ℕ) (ip : String) (cache : Cache)
    (c : Option Bool)
    → (let q : Cache × Result String Bool = elim c [
      | some banned ↦ (cache, ok banned)
      | none ↦ decided cfg later ip (query_lapi (ask ip)) cache
    ] in
        q.1)
      ≡ or_ask c (query_lapi (ask ip))
is_banned-by_cache cfg ask later ip cache (some b) = refl
is_banned-by_cache cfg ask later ip cache none =
    decided-result cfg later ip (query_lapi (ask ip)) cache

is_banned-cached :
    (cfg : CrowdSecConfig) (ask : String → LapiReply) (now later : ℕ) (ip : String) (cache : Cache)
    → (is_banned cfg ask now later ip cache).1 ≡ or_ask (cached now ip cache) (query_lapi (ask ip))
unfolding is_banned
is_banned-cached cfg ask now later ip cache =
    is_banned-by_cache cfg ask later ip cache (cached now ip cache)

-- Whatever the LAPI answered before, and in whatever order its answers were cached: a message passes
-- exactly when it has no SMTP peer, or the peer's address is not banned by the last answer for it, if
-- that is younger than the TTL, and otherwise by the answer to a new query; where the new query fails,
-- the message passes exactly if the plugin is set to fail open.
pub answers-before_send :
    (lib : AddressLib) (cfg : CrowdSecConfig) (ask : String → LapiReply) (now later : ℕ)
    (headers : Map String String) (as' : Answers)
    → let addr = read "X-SMTP-Remote-Addr" headers in
      let ip = host_only lib addr in
      passes (before_send lib cfg ask now later headers (answers cfg as' [])).1 ≡ (
        addr == ""
        || admits cfg (or_ask (believed cfg now (last_answer ip as' none)) (query_lapi (ask ip))))
unfolding before_send
answers-before_send lib cfg ask now later headers as' =
    let addr = read "X-SMTP-Remote-Addr" headers in
    let ip = host_only lib addr in
    ground (
      arith,
      passes-judge cfg ip (is_banned cfg ask now later ip (answers cfg as' [])),
      is_banned-cached cfg ask now later ip (answers cfg as' []),
      cached-answers cfg ip now as',
    )
