-- ===== src/Server/Cluster.antt =====
-- internal/server/server.go: the registration of a domain on a node of a cluster, whose registry is the one
-- in Redis. The check of the name is made on the node's own store.
pub mod Taken
use postbox.Common.{ℕ, String, Bool, string_Eq, ◌==◌, if◌then◌else◌, [], Result, ok, err}
use postbox.Store.{Domain, Error, not_found}
use postbox.MemStore.{MemStore, get_domain}
use postbox.Registry.{Entity, domain, RegistryError}
use postbox.Registry.Redis.{Redis, Json, register}
use postbox.Server.{Code, invalid_argument, already_exists, internal}

module _ {R : Type 0} (redis : Redis R) (json : Json) where
  -- The end of `RegisterDomain`.
  abbrev pub registered :
      R × MemStore × Result RegistryError (Unit {0}) → R × MemStore × Result Code (Unit {0})
  registered (r, s, ok x) = (r, s, ok tt)
  registered (r, s, err e) = (r, s, err internal)

  abbrev pub domain_found :
      String
      → String
      → ℕ
      → String
      → Bool
      → Result Error Domain
      → R
      → MemStore
      → R × MemStore × Result Code (Unit {0})
  domain_found node_id address now name is_default (ok existing) r s =
      (r, s, if existing.node_id == node_id then ok tt else err already_exists)
  domain_found node_id address now name is_default (err not_found) r s = registered (
      register redis json node_id address now
        (record {
          type = domain;
          name = name;
          is_default = is_default;
          user_type = "";
          metadata = [];
        })
        r s)
  domain_found node_id address now name is_default (err e) r s = (r, s, err internal)

  -- `RegisterDomain`
  unfoldable pub register_domain :
      String → String → ℕ → String → Bool → R → MemStore → R × MemStore × Result Code (Unit {0})
  register_domain node_id address now name is_default r s =
      if name == ""
      then (r, s, err invalid_argument)
      else domain_found node_id address now name is_default (get_domain name s) r s
