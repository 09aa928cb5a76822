-- ===== src/Registry/Local/Routing.antt =====
-- What the local registry resolves a target to.
use postbox.Common.{
  ℕ, String, Bool, true, none, string_Eq, Result, ok, err, [], ◌≡◌, ◌≢◌, refl, arith, eq_iff,
}
use postbox.Common.Map.{get}
use postbox.Store.{Domain}
use postbox.MemStore.{MemStore, save_domain, get_domain, get_default_domain}
use postbox.MemStore.Domains.{DomainsValid, get-save_domain}
use postbox.MemStore.Domains.Default.{get_default_domain-save_domain}
use postbox.Registry.{Entity, domain, RegistryError, not_found}
use postbox.Registry.Local.{lookup, register, domain_part}

-- The node of a registered domain, or else that of the default domain.
abbrev pub route : MemStore → String → Result RegistryError String
route s name = elim (get_domain name s) [
  | ok d ↦ ok d.node_id
  | err e ↦ elim (get_default_domain s) [ ok d ↦ ok d.node_id | err e ↦ err not_found ]
]

-- A lookup resolves a target by its domain part alone: a known user changes nothing.
pub lookup-route : (s : MemStore) (target : String) → lookup s target ≡ route s (domain_part target)
unfolding lookup
lookup-route s target = ground arith

-- The registration of a domain for a node.
abbrev pub claim : String → Bool → Entity
claim name is_default = record {
  type = domain;
  name = name;
  is_default = is_default;
  user_type = "";
  metadata = [];
}

abbrev pub claimed : String → String → Bool → Domain
claimed node_id name is_default = record { name = name; node_id = node_id; is_default = is_default }

register-save_domain :
    (node_id : String) (now : ℕ) (name : String) (is_default : Bool) (s : MemStore)
    → (register node_id now (claim name is_default) s).0
      ≡ (save_domain (claimed node_id name is_default) s).0
unfolding register save_domain
register-save_domain node_id now name is_default s = ground arith

module _ (node_id : String) (now : ℕ) (name : String) (s : MemStore) (named : name ≢ "") where
  -- After a domain with a name is registered, every target with that domain part resolves to the
  -- node.
  pub lookup-register :
      (is_default : Bool) (target : String)
      → domain_part target ≡ name
      → lookup (register node_id now (claim name is_default) s).0 target ≡ ok node_id
  unfolding get_domain
  lookup-register is_default target e =
      let d = claimed node_id name is_default in
      rw (lookup-route, register-save_domain node_id now name is_default s)
        (ground
          (arith, get-save_domain d s (domain_part target) named, eq_iff name (domain_part target)))

  -- After a domain with a name is registered as the default in a store with valid domains, every
  -- target whose own domain was not registered resolves to the node.
  pub lookup-register_default :
      (target : String)
      → DomainsValid s.domains
      → get (domain_part target) s.domains ≡ none
      → lookup (register node_id now (claim name true) s).0 target ≡ ok node_id
  unfolding get_domain
  lookup-register_default target v absent =
      let d = claimed node_id name true in
      rw (lookup-route, register-save_domain node_id now name true s)
        (ground (
          arith,
          get-save_domain d s (domain_part target) named,
          get_default_domain-save_domain d s v named refl,
        ))
