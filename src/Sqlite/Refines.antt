-- ===== src/Sqlite/Refines.antt =====
-- The SQLite store against the one in memory: what is written to both is read from both.
use mathlib.Core.Option
use postbox.Common.{
  ℕ, String, ◌≡◌, refl, ap, ◌∙◌, nat_Eq, string_Eq, pair_Eq, Option, none, some, List, Result, ok,
  err, ◌>>=◌,
}
use postbox.Common.Map.{get, get-map_values}
use postbox.Common.Sort.{sort_by, sort_by-map}
use postbox.Store.{Domain, User, Error}
use postbox.MemStore
use postbox.MemStore.{
  MemStore, keep_created_at, values, job_key, domain_le, user_le, or_not_found, is_due, retry_le,
}
use postbox.MemStore.Trace.{Write, writes}
use postbox.Sqlite.{
  Tables, new_tables, SqlError, not_found, get_node, get_domain, get_default_domain, list_domains,
  domain_row, name_le, scan_domain_of, row_or_not_found,
}
use postbox.Sqlite.Users.{Json, IsCodec, get_user, list_users, email_le, scan_user}
use postbox.Sqlite.Jobs.{get_delivery_job}
use postbox.Sqlite.Encoded.{
  SameLookup, SameListing, user_row_of, encoded, values-map_values, scan_domain-domain_row,
  scan_domains-map, scan_user-user_row, scan_users-map, first_default-map_values,
}
use postbox.Sqlite.Writes.{writes_tables, AllFit, writes-encoded}

-- The result of a read in memory, as the one of a query.
abbrev pub as_query {ℓ} : {A : Type ℓ} → Result Error A → Result SqlError A
as_query (ok a) = ok a
as_query (err e) = err not_found

-- What is read by key from the tables, and the listings that are ordered by a key, are those of the
-- store in memory.
abbrev pub ReadsAlike : Json → Tables → MemStore → Type 0
ReadsAlike json t s =
    ((id : String) → get_node none id t ≡ as_query (MemStore.get_node id s))
    × ((name : String) → get_domain none name t ≡ as_query (MemStore.get_domain name s))
    × (get_default_domain none t ≡ as_query (MemStore.get_default_domain s))
    × (list_domains none t ≡ ok (MemStore.list_domains s))
    × ((email : String) → SameLookup (get_user json none email t) (MemStore.get_user email s))
    × SameListing (list_users json none t) (MemStore.list_users s)
    × ((m r : String) → get_delivery_job none m r t ≡ as_query (MemStore.get_delivery_job m r s))

scanned_domain :
    (o : Option Domain)
    → scan_domain_of (row_or_not_found (Option.map domain_row o)) ≡ as_query (or_not_found o)
scanned_domain none = refl
scanned_domain (some d) = ap ok (scan_domain-domain_row d)

found_job : {A : Type 0} (o : Option A) → row_or_not_found o ≡ as_query (or_not_found o)
found_job none = refl
found_job (some a) = refl

module _ (json : Json) (codec : IsCodec json) (s : MemStore) where
  scanned_user :
      (o : Option User)
      → SameLookup
          (row_or_not_found (Option.map (user_row_of json) o) >>= scan_user json)
          (or_not_found o)
  scanned_user none = refl
  scanned_user (some u) = scan_user-user_row json codec u

  get_domain-encoded :
      (name : String)
      → get_domain none name (encoded json s) ≡ as_query (MemStore.get_domain name s)
  unfolding get_domain MemStore.get_domain
  get_domain-encoded name =
      ap (λ o. scan_domain_of (row_or_not_found o)) (get-map_values domain_row name s.domains)
      ∙ scanned_domain (get name s.domains)

  get_default_domain-encoded :
      get_default_domain none (encoded json s) ≡ as_query (MemStore.get_default_domain s)
  unfolding get_default_domain MemStore.get_default_domain
  get_default_domain-encoded =
      ap (λ o. scan_domain_of (row_or_not_found o)) (first_default-map_values s.domains)
      ∙ scanned_domain (MemStore.first_default s.domains)

  list_domains-encoded : list_domains none (encoded json s) ≡ ok (MemStore.list_domains s)
  unfolding list_domains MemStore.list_domains
  list_domains-encoded =
      rw
        (
          values-map_values,
          sort_by-map domain_row domain_le name_le (λ a b. refl),
          scan_domains-map,
        )
        refl

  get_user-encoded :
      (email : String)
      → SameLookup (get_user json none email (encoded json s)) (MemStore.get_user email s)
  unfolding get_user MemStore.get_user
  get_user-encoded email =
      rw (get-map_values (user_row_of json) email s.users) (scanned_user (get email s.users))

  list_users-encoded : SameListing (list_users json none (encoded json s)) (MemStore.list_users s)
  unfolding list_users MemStore.list_users
  list_users-encoded =
      rw (values-map_values, sort_by-map (user_row_of json) user_le email_le (λ a b. refl))
        (scan_users-map json codec (sort_by user_le (values s.users)))

  encoded-ReadsAlike : ReadsAlike json (encoded json s) s
  unfolding get_node MemStore.get_node get_delivery_job MemStore.get_delivery_job
  encoded-ReadsAlike = (
    λ id. found_job (get id s.nodes),
    get_domain-encoded,
    get_default_domain-encoded,
    list_domains-encoded,
    get_user-encoded,
    list_users-encoded,
    λ m r. found_job (get (m, r) s.delivery_jobs),
  )

-- Where domains and users have names, users have a creation time, no second domain becomes the default,
-- metadata is read back with the entries that were written, and the database does not fail: after any
-- writes to a new database, reads of nodes, domains, the default domain, users and jobs by their keys,
-- and the listings of domains and of users, give what they give after the same writes to a new store
-- in memory, where two users are the same if their metadata has the same entries.
pub writes_tables-ReadsAlike :
    (json : Json) (codec : IsCodec json) (now : ℕ) (ws : List Write)
    → AllFit ws MemStore.new
    → ReadsAlike json (writes_tables json now ws new_tables) (writes ws MemStore.new)
unfolding new_tables MemStore.new
writes_tables-ReadsAlike json codec now ws f =
    rw (writes-encoded json now ws MemStore.new f tt)
      (encoded-ReadsAlike json codec (writes ws MemStore.new))
