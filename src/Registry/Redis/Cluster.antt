-- ===== src/Registry/Redis/Cluster.antt =====
-- What every node of a cluster resolves after a registration.
use Prim.Native.Char.{code}
use text.Mathlib.TextLemmas.{append_cancel_left, cons-append}
use Prim.Native.String.{◌++◌ as str_append}
use postbox.Common.{
  ℕ, All, List, [], ◌∷◌, ◌≢◌, if◌then◌else◌, String, size, nat_eq, ◌&&◌, has_prefix, Bool, true,
  false, ◌≡◌, refl, ap, ◌∙◌, ◌≤◌, string_Eq, ◌==◌, Result, ok, err, arith, eq_iff, Bool-cases, inl,
  inr,
}
use postbox.Store.{Error}
use postbox.MemStore.{MemStore}
use postbox.Registry.Local.{domain_part}
use postbox.Registry.Local.Routing.{claim}
use postbox.Registry.Redis.{
  value, Redis, IsRedis, Json, IsCodec, RouteEntry, default_domain_key, domain_key,
  get_domain_route, lookup, lift, unmarshalled, route_of, register_route, register,
}

-- A prefix of a text that is not longer than its first part is one of that part.
has_prefix-append :
    (s t p : String) → size p ≤ size s → has_prefix (str_append s t) p ≡ has_prefix s p
unfolding has_prefix size
has_prefix-append s t String.[] h = refl
has_prefix-append String.[] t (String.◌∷◌ d p) h = absurd (omega arith)
has_prefix-append (String.◌∷◌ c s) t (String.◌∷◌ d p) h =
    rw (cons-append c s t)
      (ap (λ b. nat_eq (code c) (code d) && b) (has_prefix-append s t p (omega arith)))

-- The key of the default domain is no domain's.
other_key : (name : String) → (default_domain_key == domain_key name) ≡ false
unfolding has_prefix size
other_key name = elim (Bool-cases (default_domain_key == domain_key name)) [
  | inl e ↦
      let p : true ≡ false =
        ap (λ t. has_prefix t "postbox:default") ((eq_iff default_domain_key (domain_key name)).0 e)
        ∙ has_prefix-append "postbox:route:domain:" name "postbox:default" (omega arith) in
      absurd (ground arith)
  | inr e ↦ e
]

-- Keys of different domains are different.
other_domain : (a b : String) → a ≢ b → (domain_key a == domain_key b) ≡ false
other_domain a b h = elim (Bool-cases (domain_key a == domain_key b)) [
  | inl e ↦ absurd (
      h (
        append_cancel_left "postbox:route:domain:" a b
          ((eq_iff (domain_key a) (domain_key b)).0 e)))
  | inr e ↦ e
]

-- A registration of a domain, by a node with its address and its store, at a time.
pub record Registration : Type 0 where
  pub node_id : String
  pub address : String
  pub at : ℕ
  pub name : String
  pub is_default : Bool
  pub store : MemStore

module _ {R : Type 0} (redis : Redis R) (json : Json) where
  -- Registrations one after another, each by a node with its store.
  unfoldable pub register_all : List Registration → R → R
  register_all [] r = r
  register_all (x ∷ xs) r =
      register_all xs
        (register redis json x.node_id x.address x.at (claim x.name x.is_default) r x.store).0

  -- Each of them succeeds.
  abbrev pub AllSucceed : List Registration → R → Type 0
  AllSucceed [] r = Unit
  AllSucceed (x ∷ xs) r =
      let p = register redis json x.node_id x.address x.at (claim x.name x.is_default) r x.store in
      (p.2 ≡ ok tt) × AllSucceed xs p.0

module _ {R : Type 0} (redis : Redis R) (json : Json) (law : IsRedis redis)
    (codec : IsCodec json) where
  route_of-marshal : (e : RouteEntry) → route_of redis json (value (json.marshal e)) ≡ ok e
  route_of-marshal e = ap unmarshalled (codec e)

  lift-0 : (r : R) (p : MemStore × Result Error (Unit {0})) → (lift redis json r p).0 ≡ r
  lift-0 r (s, ok x) = refl
  lift-0 r (s, err e) = refl

  -- A registration that succeeds writes the route of its domain, and no other route.
  get-register_route :
      (node_id address : String) (now later : ℕ) (name other : String) (is_default : Bool) (r : R)
      (s : MemStore)
      → now ≤ later
      → (register_route redis json node_id address now (claim name is_default) r s).2 ≡ ok tt
      → redis.get later
          (domain_key other)
          (register_route redis json node_id address now (claim name is_default) r s).0
        ≡ (if domain_key name == domain_key other
            then value (json.marshal (record { node_id = node_id; address = address }))
            else redis.get later (domain_key other) r)
  unfolding register_route
  get-register_route node_id address now later name other is_default r s le h =
      let v = json.marshal (record { node_id = node_id; address = address }) in
      let k = domain_key name in
      let j = domain_key other in
      let r1 = (redis.set now k v 0 r).0 in
      let first = law.get-set now later k v r j le in
      elim (Bool-cases (redis.set now k v 0 r).1) [
        | inr a ↦ absurd (ground (arith, a))
        | inl a ↦ elim (Bool-cases is_default) [
          | inr b ↦ rw (a, b, lift-0) (first a)
          | inl b ↦ elim (Bool-cases (redis.set now default_domain_key name 0 r1).1) [
            | inr c ↦ absurd (ground (arith, a, b, c))
            | inl c ↦
                rw (a, b, c, lift-0)
                  (law.get-set now later default_domain_key name r1 j le c
                    ∙ rw (other_key other) (first a))
          ]
        ]
      ]

  get-register_all :
      (xs : List Registration) (later : ℕ) (name : String) (r : R)
      → All (λ x. (x.at ≤ later) × (x.name ≢ name)) xs
      → AllSucceed redis json xs r
      → redis.get later (domain_key name) (register_all redis json xs r)
        ≡ redis.get later (domain_key name) r
  unfolding register_all register
  get-register_all [] later name r h k = refl
  get-register_all (x ∷ xs) later name r h k =
      let r' =
        (register redis json x.node_id x.address x.at (claim x.name x.is_default) r x.store).0 in
      get-register_all xs later name r' h.1 k.1
      ∙ get-register_route x.node_id x.address x.at later x.name name x.is_default r x.store h.0.0
          k.0
      ∙ rw (other_domain x.name name h.0.1) refl

  -- After a node registered a domain, default or not, and then any registrations of other domains, by
  -- whatever nodes and as the default or not, have succeeded, every node resolves every target of that
  -- domain to it, whoever had the domain before, as long as nothing else is written to Redis.
  pub lookup_cluster-register :
      (node_id address : String) (now later : ℕ) (name : String) (is_default : Bool) (r : R)
      (s : MemStore) (xs : List Registration) (target : String)
      → now ≤ later
      → (register redis json node_id address now (claim name is_default) r s).2 ≡ ok tt
      → All (λ x. (x.at ≤ later) × (x.name ≢ name)) xs
      → AllSucceed redis json xs
          (register redis json node_id address now (claim name is_default) r s).0
      → domain_part target ≡ name
      → lookup redis json later
          (register_all redis json xs
            (register redis json node_id address now (claim name is_default) r s).0)
          target
        ≡ ok node_id
  unfolding register lookup get_domain_route
  lookup_cluster-register node_id address now later name is_default r s xs target le h others k e =
      let entry : RouteEntry = record { node_id = node_id; address = address } in
      let r' = (register redis json node_id address now (claim name is_default) r s).0 in
      let route : redis.get later (domain_key name) (register_all redis json xs r')
          ≡ value (json.marshal entry) =
        get-register_all xs later name r' others k
        ∙ get-register_route node_id address now later name name is_default r s le h
        ∙ rw ((eq_iff (domain_key name) (domain_key name)).1 refl) refl in
      rw (e, route, route_of-marshal entry) refl
