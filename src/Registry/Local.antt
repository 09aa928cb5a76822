-- ===== src/Registry/Local.antt =====
-- internal/registry/local/registry.go: the registry of a single node, backed by the store.
pub mod Routing
use postbox.Common.{
  ℕ, String, Bool, true, false, Option, none, some, string_Eq, if◌then◌else◌, Result, ok, err,
  contains, after_first, ◌≡◌, refl, arith,
}
use postbox.Store.{Domain, User, Error}
use postbox.MemStore.{MemStore, save_domain, save_user, get_user, get_domain, get_default_domain}
use postbox.Registry.{
  Entity, EntityType, domain, user, other, RegistryError, not_found, store_error, unsupported,
}

-- The node of a domain that is in the store.
abbrev node_of : Result Error Domain → Option String
node_of (ok d) = some d.node_id
node_of (err e) = none

-- `target[idx+1:]` where an "@" stands at `idx`, and all of `target` where there is none.
abbrev pub domain_part : String → String
domain_part target = elim (after_first b'@' target) [ none ↦ target | some rest ↦ rest ]

-- Step 1: the user's own domain, for a known user with a known domain.
by_user : String → MemStore → Option String
by_user target s =
    if contains target "@"
    then elim (get_user target s) [
      | err e ↦ none
      | ok u ↦ elim (after_first b'@' target) [
        | none ↦ none
        | some part ↦ node_of (get_domain part s)
      ]
    ]
    else none

-- Steps 2 and 3: the domain, and then the default domain.
by_domain : String → MemStore → Result RegistryError String
by_domain name s = elim (node_of (get_domain name s)) [
  | some n ↦ ok n
  | none ↦ elim (get_default_domain s) [ ok d ↦ ok d.node_id | err e ↦ err not_found ]
]

unfoldable pub lookup : MemStore → String → Result RegistryError String
unfolding by_user by_domain
lookup s target = elim (by_user target s) [
  | some n ↦ ok n
  | none ↦ by_domain (domain_part target) s
]

abbrev lift : MemStore × Result Error (Unit {0}) → MemStore × Result RegistryError (Unit {0})
lift (s, ok x) = (s, ok x)
lift (s, err e) = (s, err (store_error e))

-- `Register` for the node `node_id` at the time `now`.
unfoldable pub register :
    String → ℕ → Entity → MemStore → MemStore × Result RegistryError (Unit {0})
register node_id now entity s = elim entity.type [
  | domain ↦ lift (
      save_domain (record { name = entity.name; node_id = node_id; is_default = entity.is_default })
        s)
  | user ↦ lift (
      save_user
        (record {
          email = entity.name;
          type = entity.user_type;
          public_key_b64 = "";
          metadata = entity.metadata;
          created_at = now;
        })
        s)
  | other t ↦ (s, err (unsupported t))
]
