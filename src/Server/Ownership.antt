-- ===== src/Server/Ownership.antt =====
-- Who owns a domain, and which failures are listed.
use postbox.Common.{
  ℕ, String, Bool, ◌≡◌, ◌≢◌, refl, none, some, [], ◌∷◌, string_Eq, pair_Eq, ◌==◌, arith, eq_iff,
  Bool-cases, Option-cases, inl, inr, select, Option,
}
use postbox.Common.Map.{Map, get, AllEntries}
use postbox.Common.Sort.{sort_by}
use postbox.Store.{DeliveryJob, DeliveryStatus, failed, dead}
use postbox.MemStore.{
  MemStore, values, get_domain, matches_recipient, list_delivery_jobs_by_recipient,
}
use postbox.MemStore.Domains.{get-save_domain}
use postbox.Registry.Local.{register}
use postbox.Server.{register_domain, list_delivery_failures}

-- The node that a domain of the store belongs to.
abbrev pub owner : String → MemStore → Option String
owner name s = elim (get name s.domains) [ none ↦ none | some d ↦ some d.node_id ]

-- In the store of a node with the local registry, no registration takes a domain from the node that
-- it belongs to, whatever name is registered.
pub owner-register_domain :
    (node_id : String) (now : ℕ) (name : String) (is_default : Bool) (j n : String) (s : MemStore)
    → owner j s ≡ some n
    → owner j (register_domain node_id now name is_default s).0 ≡ some n
unfolding register_domain register get_domain
owner-register_domain node_id now name is_default j n s h = elim (Bool-cases (name == "")) [
  | inl e ↦ rw e h
  | inr e ↦ rw e (elim (Option-cases (get name s.domains)) [
    | inl a ↦ rw a (
        ground (
          arith,
          eq_iff name j,
          eq_iff name "",
          get-save_domain (record { name = name; node_id = node_id; is_default = is_default }) s j
              (λ p. ground (arith, eq_iff name "")),
        ))
    | inr (d, a) ↦ rw a h
  ])
]

none_match :
    (st : DeliveryStatus) (m : Map (String × String) DeliveryJob)
    → AllEntries (λ k j. j.recipient_id ≢ "") m
    → select (matches_recipient "" (some st)) (values m) ≡ []
none_match st [] h = refl
none_match st ((k, j) ∷ m) h = ground (arith, none_match st m h.1, eq_iff j.recipient_id "", h.0)

-- A request with an empty recipient lists no failure at all, where every stored job has a recipient.
pub list_delivery_failures-nobody :
    (s : MemStore)
    → AllEntries (λ k j. j.recipient_id ≢ "") s.delivery_jobs
    → list_delivery_failures "" s ≡ []
unfolding list_delivery_failures list_delivery_jobs_by_recipient sort_by
list_delivery_failures-nobody s h =
    rw (none_match failed s.delivery_jobs h, none_match dead s.delivery_jobs h) refl
