-- ===== src/Registry/Redis.antt =====
-- internal/registry/redis/registry.go: the registry of a cluster, whose nodes share a Redis and have a
-- store each. The Redis client and the encoding of routes in JSON are parameters.
pub mod Cluster
use Prim.Native.String.{◌++◌ as str_append}
use postbox.Common.{
  ℕ, ◌*◌, String, Bool, true, false, ◌&&◌, Option, none, some, ◌≡◌, string_Eq, ◌==◌, if◌then◌else◌,
  Result, ok, err, ◌≤◌,
}
use postbox.Store.{Domain, User, Error}
use postbox.MemStore.{MemStore, save_domain, save_user}
use postbox.Registry.{
  Entity, EntityType, domain, user, other, RegistryError, not_found, store_error, unsupported,
  unavailable,
}
use postbox.Registry.Local.{domain_part}

-- The reply to GET: a value, none under the key (`redis.Nil`), or an error.
pub data Answer : Type 0 where
  value : String → Answer
  missing : Answer
  failed : String → Answer

-- The client's commands on the state of the server, at a time: GET, and SET with an expiry, where 0 is
-- none; SET says whether it succeeded.
pub record Redis (R : Type 0) : Type 0 where
  pub get : ℕ → String → R → Answer
  pub set : ℕ → String → String → ℕ → R → R × Bool

-- What Redis documents of a SET that succeeds, where its client stays connected: a value without
-- expiry is there from then on, and no other key is changed.
pub record IsRedis {R : Type 0} (redis : Redis R) : Type 0 where
  pub get-set :
      (now later : ℕ) (k v : String) (r : R) (j : String)
      → now ≤ later
      → (redis.set now k v 0 r).1 ≡ true
      → redis.get later j (redis.set now k v 0 r).0
        ≡ (if k == j then value v else redis.get later j r)

pub record RouteEntry : Type 0 where
  pub node_id : String
  pub address : String

-- `json.Marshal` and `json.Unmarshal` of a route.
pub record Json : Type 0 where
  pub marshal : RouteEntry → String
  pub unmarshal : String → Option RouteEntry

abbrev pub IsCodec : Json → Type 0
IsCodec json = (e : RouteEntry) → json.unmarshal (json.marshal e) ≡ some e

abbrev pub default_domain_key : String
default_domain_key = "postbox:default_domain"

abbrev pub domain_key : String → String
domain_key name = str_append "postbox:route:domain:" name

abbrev pub node_key : String → String
node_key id = str_append "postbox:node:" id

-- `HeartbeatTTL`, in nanoseconds.
abbrev pub heartbeat_ttl : ℕ
heartbeat_ttl = 30 * 1_000_000_000

abbrev pub unmarshalled : Option RouteEntry → Result RegistryError RouteEntry
unmarshalled (some e) = ok e
unmarshalled none = err (unavailable "unmarshal domain route")

module _ {R : Type 0} (redis : Redis R) (json : Json) where
  abbrev pub route_of : Answer → Result RegistryError RouteEntry
  route_of (value text) = unmarshalled (json.unmarshal text)
  route_of missing = err not_found
  route_of (failed e) = err (unavailable e)

  -- `getDomainRoute`
  unfoldable pub get_domain_route : ℕ → String → R → Result RegistryError RouteEntry
  get_domain_route now name r = route_of (redis.get now (domain_key name) r)

  abbrev pub node_or_not_found : Result RegistryError RouteEntry → Result RegistryError String
  node_or_not_found (ok e) = ok e.node_id
  node_or_not_found (err e) = err not_found

  -- The rest of `Lookup`, where the domain has no route.
  abbrev by_default : ℕ → String → Answer → R → Result RegistryError String
  by_default now name (value default_name) r =
      if default_name == name
      then err not_found
      else node_or_not_found (get_domain_route now default_name r)
  by_default now name missing r = err not_found
  by_default now name (failed e) r = err not_found

  abbrev pub lookup_route :
      ℕ → String → Result RegistryError RouteEntry → R → Result RegistryError String
  lookup_route now name (ok e) r = ok e.node_id
  lookup_route now name (err e) r = by_default now name (redis.get now default_domain_key r) r

  -- `Lookup`
  unfoldable pub lookup : ℕ → R → String → Result RegistryError String
  unfolding get_domain_route
  lookup now r target =
      let name = domain_part target in lookup_route now name (get_domain_route now name r) r

  abbrev set_default : ℕ → Entity → R → R × Bool
  set_default now entity r =
      if entity.is_default then redis.set now default_domain_key entity.name 0 r else (r, true)

  abbrev pub lift :
      R → MemStore × Result Error (Unit {0}) → R × MemStore × Result RegistryError (Unit {0})
  lift r (s, ok x) = (r, s, ok x)
  lift r (s, err e) = (r, s, err (store_error e))

  -- The case of a domain.
  unfoldable pub register_route :
      String → String → ℕ → Entity → R → MemStore → R × MemStore × Result RegistryError (Unit {0})
  register_route node_id address now entity r s =
      let (r1, routed) =
        redis.set now (domain_key entity.name)
          (json.marshal (record { node_id = node_id; address = address })) 0 r in
      let (r2, marked) = set_default now entity r1 in
      if routed
      then (if marked
          then lift r2 (
              save_domain
                (record { name = entity.name; node_id = node_id; is_default = entity.is_default })
                s)
          else (r2, s, err (unavailable "set default domain")))
      else (r1, s, err (unavailable "set domain route"))

  -- `Register` on the node `node_id`
  unfoldable pub register :
      String → String → ℕ → Entity → R → MemStore → R × MemStore × Result RegistryError (Unit {0})
  unfolding register_route
  register node_id address now entity r s = elim entity.type [
    | domain ↦ register_route node_id address now entity r s
    | user ↦ lift r (
        save_user
          (record {
            email = entity.name;
            type = entity.user_type;
            public_key_b64 = "";
            metadata = entity.metadata;
            created_at = 0;
          })
          s)
    | other t ↦ (r, s, err (unsupported t))
  ]

  -- `ResolveNode` on the node `own` with the address `address`
  unfoldable pub resolve_node : String → String → ℕ → String → R → Result RegistryError String
  resolve_node own address now node_id r =
      if node_id == own then ok address else elim (redis.get now (node_key node_id) r) [
        | value addr ↦ ok addr
        | missing ↦ err not_found
        | failed e ↦ err (unavailable e)
      ]

  -- `Announce`
  unfoldable pub announce : String → String → ℕ → R → R × Bool
  announce own address now r = redis.set now (node_key own) address heartbeat_ttl r
