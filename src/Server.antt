-- ===== src/Server.antt =====
-- internal/server/server.go: the RPCs on domains and on delivery jobs, over the in-memory store and the
-- local registry. A gRPC error is its code (`unknown` is NotFound); the text of a response is left out.
pub mod Ownership
pub mod Accounts
pub mod Control
pub mod Cluster
pub mod Discovery
use postbox.Common.{
  ℕ, String, Bool, true, false, not, none, some, List, [], ◌++◌, string_Eq, ◌==◌, if◌then◌else◌,
  Result, ok, err,
}
use postbox.Common.Map.{Map}
use postbox.Store.{Domain, DeliveryJob, failed, dead, Error, not_found}
use postbox.MemStore.{
  MemStore, save_domain, get_domain, get_delivery_job, list_delivery_jobs_by_recipient,
}
use postbox.Registry.{Entity, domain, RegistryError}
use postbox.Registry.Local.{register}

pub data Code : Type 0 where
  invalid_argument already_exists unknown failed_precondition internal : Code

-- The end of `RegisterDomain`.
abbrev registered : MemStore × Result RegistryError (Unit {0}) → MemStore × Result Code (Unit {0})
registered (s, ok x) = (s, ok tt)
registered (s, err e) = (s, err internal)

-- What `RegisterDomain` does once the name is looked up.
abbrev register_found :
    String → ℕ → String → Bool → Result Error Domain → MemStore → MemStore × Result Code (Unit {0})
register_found node_id now name is_default (ok existing) s =
    (s, if existing.node_id == node_id then ok tt else err already_exists)
register_found node_id now name is_default (err not_found) s = registered (
    register node_id now
      (record {
        type = domain;
        name = name;
        is_default = is_default;
        user_type = "";
        metadata = [];
      })
      s)
register_found node_id now name is_default (err e) s = (s, err internal)

-- `RegisterDomain` on the node `node_id`
unfoldable pub register_domain :
    String → ℕ → String → Bool → MemStore → MemStore × Result Code (Unit {0})
register_domain node_id now name is_default s =
    if name == ""
    then (s, err invalid_argument)
    else register_found node_id now name is_default (get_domain name s) s

-- What `RemapDomain` does once the domain is looked up.
abbrev remap_found : String → Result Error Domain → MemStore → MemStore × Result Code (Unit {0})
remap_found target (ok d) s =
    let (s', r) = save_domain (record d { node_id = target }) s in
    (s', elim r [ ok x ↦ ok tt | err e ↦ err internal ])
remap_found target (err not_found) s = (s, err unknown)
remap_found target (err e) s = (s, err internal)

-- `RemapDomain`
unfoldable pub remap_domain : String → String → MemStore → MemStore × Result Code (Unit {0})
remap_domain name target s =
    if name == ""
    then (s, err invalid_argument)
    else if target == ""
    then (s, err invalid_argument)
    else remap_found target (get_domain name s) s

-- `ListDeliveryFailures`
unfoldable pub list_delivery_failures : String → MemStore → List DeliveryJob
list_delivery_failures recipient_id s =
    list_delivery_jobs_by_recipient recipient_id (some failed) s
    ++ list_delivery_jobs_by_recipient recipient_id (some dead) s
