-- ===== src/Sqlite.antt =====
-- internal/store/sqlite/store.go: the store that a node keeps in SQLite. A table is a map from its
-- primary key to its row, and a statement is the function on tables that its text says. The database
-- may fail at any statement, with a text; `none` is a statement that runs. The children
-- Users and Jobs have the statements on those tables; the others hold the theorems.
pub mod Users
pub mod Jobs
pub mod Encoded
pub mod Writes
pub mod Refines
pub mod Defaults
pub mod Search
use Prim.Native.String.{◌++◌ as str_append}
use postbox.Common.{
  ℕ, String, Bool, true, false, ◌&&◌, ◌||◌, not, nat_Eq, string_Eq, pair_Eq, Option, none, some,
  List, [], ◌∷◌, ◌==◌, leb, ltb, if◌then◌else◌, Result, ok, err, ◌>>=◌, length, select, take,
  string_le, ◌≡◌,
}
use postbox.Common.Map.{Map, get, put}
use postbox.Common.Sort.{sort_by}
use postbox.Store.{
  Node, Domain, User, DeliveryJob, DeliveryStatus, pending, failed, status_eq, is_valid_meta_key,
}
use postbox.MemStore.{
  values, keep_keys, job_key, with_defaults, updated, is_due, retry_le, newer_le, matches_recipient,
}

-- `is_default` is an INTEGER, and `metadata` is JSON.
pub record DomainRow : Type 0 where
  pub name : String
  pub node_id : String
  pub is_default : ℕ

pub record UserRow : Type 0 where
  pub email : String
  pub type : String
  pub public_key : String
  pub metadata : String
  pub created_at : ℕ

pub record Tables : Type 0 where
  pub nodes : Map String Node
  pub domains : Map String DomainRow
  pub users : Map String UserRow
  pub webhook_delivery_jobs : Map (String × String) DeliveryJob

-- The tables that `migrate` makes in a new database.
unfoldable pub new_tables : Tables
new_tables = record { nodes = []; domains = []; users = []; webhook_delivery_jobs = [] }

pub data SqlError : Type 0 where
  not_found unique_violation bad_metadata no_id : SqlError
  database : String → SqlError

abbrev pub Fault : Type 0
Fault = Option String

abbrev pub exec :
    Fault → Tables → Tables × Result SqlError (Unit {0}) → Tables × Result SqlError (Unit {0})
exec none t r = r
exec (some e) t r = (t, err (database e))

abbrev pub query {ℓ} : {A : Type ℓ} → Fault → Result SqlError A → Result SqlError A
query none r = r
query (some e) r = err (database e)

abbrev pub row_or_not_found {ℓ} : {A : Type ℓ} → Option A → Result SqlError A
row_or_not_found none = err not_found
row_or_not_found (some a) = ok a

-- `SaveNode`
unfoldable pub save_node : Fault → Node → Tables → Tables × Result SqlError (Unit {0})
save_node fault n t =
    if n.id == ""
    then (t, err no_id)
    else exec fault t
        (record t { nodes = put n.id (keep_keys (get n.id t.nodes) n) t.nodes }, ok tt)

-- `GetNode`
unfoldable pub get_node : Fault → String → Tables → Result SqlError Node
get_node fault id t = query fault (row_or_not_found (get id t.nodes))

abbrev pub to_int : Bool → ℕ
to_int b = if b then 1 else 0

abbrev pub domain_row : Domain → DomainRow
domain_row d = record { name = d.name; node_id = d.node_id; is_default = to_int d.is_default }

-- Another row than the named one is in the unique index `idx_domains_default`.
unfoldable pub default_taken : String → Map String DomainRow → Bool
default_taken name [] = false
default_taken name ((k, r) ∷ m) = (not (k == name) && r.is_default == 1) || default_taken name m

-- `SaveDomain`
unfoldable pub save_domain : Fault → Domain → Tables → Tables × Result SqlError (Unit {0})
unfolding default_taken
save_domain fault d t = exec fault t (
    if d.is_default && default_taken d.name t.domains
    then (t, err unique_violation)
    else (record t { domains = put d.name (domain_row d) t.domains }, ok tt))

abbrev pub scan_domain : DomainRow → Domain
scan_domain r = record { name = r.name; node_id = r.node_id; is_default = not (r.is_default == 0) }

abbrev pub scan_domain_of : Result SqlError DomainRow → Result SqlError Domain
scan_domain_of r = r >>= λ row. ok (scan_domain row)

-- `GetDomain`
unfoldable pub get_domain : Fault → String → Tables → Result SqlError Domain
get_domain fault name t = scan_domain_of (query fault (row_or_not_found (get name t.domains)))

unfoldable pub first_default : Map String DomainRow → Option DomainRow
first_default [] = none
first_default ((k, r) ∷ m) = if r.is_default == 1 then some r else first_default m

-- `GetDefaultDomain`
unfoldable pub get_default_domain : Fault → Tables → Result SqlError Domain
unfolding first_default
get_default_domain fault t =
    scan_domain_of (query fault (row_or_not_found (first_default t.domains)))

unfoldable pub scan_domains : List DomainRow → List Domain
scan_domains [] = []
scan_domains (r ∷ rs) = scan_domain r ∷ scan_domains rs

abbrev pub name_le : DomainRow → DomainRow → Bool
name_le a b = string_le a.name b.name

-- `ListDomains`
unfoldable pub list_domains : Fault → Tables → Result SqlError (List Domain)
unfolding scan_domains
list_domains fault t = query fault (ok (scan_domains (sort_by name_le (values t.domains))))

-- `CountDomains`
unfoldable pub count_domains : Fault → Tables → Result SqlError ℕ
count_domains fault t = query fault (ok (length t.domains))
