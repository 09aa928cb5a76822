-- ===== src/Relay/Fallback.antt =====
-- internal/relay/registry.go: unknown recipients go to the relay's node, which has a fixed address.
use postbox.Common.{
  String, Option, none, some, string_Eq, Result, ok, err, ◌∷◌, [], ◌≡◌, ◌≢◌, arith, eq_iff,
}
use postbox.Common.Map.{Map, get}
use postbox.Registry.{RegistryError, not_found, Lookup}

-- `errors.Is(err, registry.ErrNotFound)` takes the relay's node.
abbrev or_relay : String → Result RegistryError String → Result RegistryError String
or_relay relay_node_id (ok n) = ok n
or_relay relay_node_id (err not_found) = ok relay_node_id
or_relay relay_node_id (err e) = err e

-- `FallbackRegistry.Lookup` over the lookup of the inner registry.
unfoldable pub fallback_lookup : Lookup → String → Lookup
fallback_lookup inner relay_node_id target = or_relay relay_node_id (inner target)

-- `StaticResolver.ResolveNode`: `base` may be nil.
unfoldable pub static_resolve : Map String String → Option Lookup → Lookup
static_resolve entries base node_id = elim (get node_id entries) [
  | some addr ↦ ok addr
  | none ↦ elim base [ some resolve ↦ resolve node_id | none ↦ err not_found ]
]

-- The resolver that a controller with a relay builds: one entry, for the relay's node.
abbrev pub relay_resolver : String → String → Option Lookup → Lookup
relay_resolver relay_node_id relay_addr = static_resolve ((relay_node_id, relay_addr) ∷ [])

-- With a relay, a target that the inner registry does not know resolves to the relay's address, a
-- target that it knows resolves as before, and other errors of the registry come through.
pub fallback_lookup_lem :
    (inner : Lookup) (relay target : String)
    → (inner target ≡ err not_found → fallback_lookup inner relay target ≡ ok relay)
      × (inner target ≢ err not_found → fallback_lookup inner relay target ≡ inner target)
unfolding fallback_lookup
fallback_lookup_lem inner relay target = (λ h. ground arith, λ h. ground arith)

pub relay_resolver_lem :
    (relay addr : String) (base : Option Lookup) → relay_resolver relay addr base relay ≡ ok addr
unfolding static_resolve get
relay_resolver_lem relay addr base = ground (arith, eq_iff relay relay)
