-- ===== src/Server/Discovery/Misaddressed.antt =====
-- Where a remapped domain is looked for.
use postbox.Common.{String, none, some, string_Eq, ok, ◌≡◌, ◌≢◌, sym, ◌∙◌, arith, eq_iff}
use postbox.Common.Map.{get}
use postbox.Store.{Domain}
use postbox.MemStore.{MemStore, get_domain}
use postbox.MemStore.Domains.{get-save_domain}
use postbox.Registry.Local.{lookup, domain_part}
use postbox.Registry.Local.Routing.{lookup-route}
use postbox.Server.{remap_domain}
use postbox.Server.Discovery.{Node, discover}

-- After a domain of the store is remapped, the local registry resolves its targets to the new node.
lookup-remap_domain :
    (name target node_id : String) (d : Domain) (s : MemStore)
    → name ≢ ""
    → node_id ≢ ""
    → d.name ≡ name
    → get name s.domains ≡ some d
    → domain_part target ≡ name
    → lookup (remap_domain name node_id s).0 target ≡ ok node_id
unfolding remap_domain get_domain
lookup-remap_domain name target node_id d s named noded same found e =
    let d' : Domain = record d { node_id = node_id } in
    let still_named : d.name ≢ "" = λ p. named (sym same ∙ p) in
    rw (lookup-route) (
      ground (
        arith,
        found,
        eq_iff name "",
        eq_iff node_id "",
        eq_iff d.name (domain_part target),
        get-save_domain d' s (domain_part target) still_named,
      ))

-- On a node with the local registry, after a domain of the store is remapped to another node, `Discover`
-- sends every target of the domain to the other node's name at this node's own address.
pub discover-remap_domain :
    (node : Node) (name target node_id : String) (d : Domain) (s : MemStore)
    → name ≢ ""
    → node_id ≢ ""
    → target ≢ ""
    → node_id ≢ node.node_id
    → d.name ≡ name
    → get name s.domains ≡ some d
    → domain_part target ≡ name
    → discover node (lookup (remap_domain name node_id s).0) none target
      ≡ ok (record { node_id = node_id; address = node.address; mode = node.mode })
unfolding discover
discover-remap_domain node name target node_id d s named noded asked other same found e =
    rw (lookup-remap_domain name target node_id d s named noded same found e)
      (ground (arith, eq_iff target "", eq_iff node_id node.node_id))
