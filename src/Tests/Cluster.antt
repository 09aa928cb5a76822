-- ===== src/Tests/Cluster.antt =====
-- The theorems on the nodes of a cluster, with a Redis that is a map.
use postbox.Common.{
  ℕ, ◌+◌, nat_Eq, after_first, ap, String, true, false, none, some, Option, [], ◌≡◌, refl,
  string_Eq, ◌==◌, ltb, if◌then◌else◌, ok, arith, eq_iff, List, ◌∷◌, ◌≢◌, false,
}
use Prim.Native.Char.{Char, code}
use postbox.Common.Map.{Map, get, put, get-put}
use postbox.MemStore.{new, save_domain}
use postbox.Registry.Local.Routing.{claim}
use postbox.Registry.Redis.{
  Answer, value, missing, Redis, IsRedis, RouteEntry, Json, IsCodec, lookup, register,
  register_route,
}
use postbox.Registry.Redis.Cluster.{Registration, register_all, lookup_cluster-register}
use postbox.Plugin.SmtpSecurity.{SecurityConfig}
use postbox.Plugin.RedisLockout.{Redis as LockoutRedis, IsRedis as IsLockoutRedis}

abbrev answer : Option String → Answer
answer none = missing
answer (some v) = value v

-- Commands that never fail, on keys that do not expire.
abbrev redis : Redis (Map String String)
redis = record { get = λ now k r. answer (get k r); set = λ now k v ttl r. (put k v r, true) }

redis_law : IsRedis redis
redis_law = record { get-set = λ now later k v r j le h. ground (arith, get-put k j v r) }

-- An encoding of a route: a mark before each character of the node's name, and another at its end.
unfoldable marked : String → String → String
marked String.[] address = String.◌∷◌ "." address
marked (String.◌∷◌ c id) address = String.◌∷◌ "x" (String.◌∷◌ c (marked id address))

abbrev add : Char → Option RouteEntry → Option RouteEntry
add c none = none
add c (some e) = some (record e { node_id = String.◌∷◌ c e.node_id })

unfoldable unmarked : String → Option RouteEntry
unmarked String.[] = none
unmarked (String.◌∷◌ d String.[]) =
    if code d == b'.' then some (record { node_id = ""; address = "" }) else none
unmarked (String.◌∷◌ d (String.◌∷◌ c t)) =
    let rest = unmarked t in
    if code d == b'.' then some (record { node_id = ""; address = String.◌∷◌ c t }) else add c rest

abbrev json : Json
json = record { marshal = λ e. marked e.node_id e.address; unmarshal = unmarked }

unmarked-marked :
    (id address : String)
    → unmarked (marked id address) ≡ some (record { node_id = id; address = address })
unfolding marked unmarked
unmarked-marked String.[] String.[] = refl
unmarked-marked String.[] (String.◌∷◌ c t) = refl
unmarked-marked (String.◌∷◌ c id) address = ap (add c) (unmarked-marked id address)

json-IsCodec : IsCodec json
json-IsCodec e = unmarked-marked e.node_id e.address

abbrev home_domain : String
home_domain = "home.test"

abbrev away_domain : String
away_domain = "away.test"

-- Another node registers another domain as the default.
abbrev others : List Registration
others =
    record {
      node_id = "b";
      address = "b:1";
      at = 8;
      name = away_domain;
      is_default = true;
      store = new;
    }
    ∷ []

away≢home_domain : away_domain ≢ home_domain
away≢home_domain e =
    let same : (away_domain == home_domain) ≡ true = (eq_iff away_domain home_domain).1 e in
    let differ : (away_domain == home_domain) ≡ false = refl in
    absurd (ground (arith, same, differ))

route_cluster_example :
    lookup redis json 9
      (register_all redis json others
        (register redis json "a" "a:1" 7 (claim "home.test" true) [] new).0)
      "ann@home.test"
    ≡ ok "a"
unfolding register register_route save_domain after_first new
route_cluster_example =
    lookup_cluster-register redis json redis_law json-IsCodec "a" "a:1" 7 9 "home.test" true [] new
      others "ann@home.test" (omega arith) refl (((omega arith), away≢home_domain), tt) (refl, tt)
      refl

abbrev there : Option ℕ → ℕ → ℕ
there none now = 0
there (some until) now = if ltb now until then 1 else 0

-- Keys with the times until which they are there; a counter that is always 1 after an increment.
abbrev expiring : LockoutRedis (Map String ℕ)
expiring = record {
  incr = λ now k r. (r, some 1);
  expire = λ now k ttl r. (r, true);
  set = λ now k v ttl r. (put k (now + ttl) r, true);
  exists = λ now k r. some (there (get k r) now);
}

expiring_law : IsLockoutRedis expiring
expiring_law = record {
  exists-set = λ now later k v ttl r le lt e. ground (arith, get-put k k (now + ttl) r, eq_iff k k);
}

abbrev security : SecurityConfig
security = record {
  max_auth_failures_per_ip = 1;
  lockout_duration = 100;
  ip_lookup_ttl = 50;
  envelope_spoof_check = false;
  allowed_sender_domains = [];
  blocked_sender_domains = [];
  max_subject_bytes = 998;
  require_authenticated_sender = false;
}

-- The domain is the first node's until the second registers it.
abbrev routes : Map String String
routes = (register redis json "a" "a:1" 6 (claim "home.test" true) [] new).0
