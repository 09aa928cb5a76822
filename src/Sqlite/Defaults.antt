-- ===== src/Sqlite/Defaults.antt =====
-- The default domain in SQLite and in the store in memory.
use postbox.Common.{◌≡◌, ◌≢◌, refl, true, none, string_Eq, ok, err}
use postbox.Store.{Domain}
use postbox.MemStore
use postbox.MemStore.{MemStore}
use postbox.MemStore.Domains.{DomainsValid}
use postbox.MemStore.Domains.Default.{get_default_domain-save_domain}
use postbox.Sqlite.{unique_violation, save_domain}
use postbox.Sqlite.Users.{Json}
use postbox.Sqlite.Encoded.{encoded, other_default, default_taken-map_values}

-- Where another domain is the default, a named domain cannot be saved as the default in SQLite: the
-- tables stay as they are, with an error of the unique index. The store in memory, which held the same
-- before, takes the domain as its default.
pub save_domain-differs :
    (json : Json) (d : Domain) (s : MemStore)
    → d.name ≢ ""
    → d.is_default ≡ true
    → DomainsValid s.domains
    → other_default d.name s.domains ≡ true
    → (save_domain none d (encoded json s) ≡ (encoded json s, err unique_violation))
      × (MemStore.get_default_domain (MemStore.save_domain d s).0 ≡ ok d)
unfolding save_domain
save_domain-differs json d s named marked v other = (
  rw (marked, default_taken-map_values, other) refl,
  get_default_domain-save_domain d s v named marked,
)
