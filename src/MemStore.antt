-- ===== src/MemStore.antt =====
-- internal/store/memstore/memstore.go: the in-memory implementation of the store interface.
-- A method takes the store and returns the new store with its result; the clock is an argument.
-- Each holds the mutex for its whole body, so a method is one atomic step.
pub mod Domains
pub mod Listings
pub mod Kept
pub mod Trace
use postbox.Common.{
  ℕ, String, Bool, false, ◌&&◌, ◌||◌, not, nat_Eq, string_Eq, pair_Eq, Option, none, some, List, [],
  ◌∷◌, ◌==◌, leb, ltb, if◌then◌else◌, Result, ok, err, length, select, take, string_le,
}
use postbox.Common.Map.{Map, get, put}
use postbox.Common.Sort.{sort_by}
use postbox.Store.{
  Node, Domain, User, DeliveryJob, DeliveryStatus, pending, failed, status_eq, Error, not_found,
  invalid, user_matches_filters,
}

pub record MemStore : Type 0 where
  pub nodes : Map String Node
  pub domains : Map String Domain
  pub users : Map String User
  pub delivery_jobs : Map (String × String) DeliveryJob

unfoldable pub new : MemStore
new = record { nodes = []; domains = []; users = []; delivery_jobs = [] }

-- The values of a map, in the order in which `range` meets them.
abbrev pub values {ℓ κ} : {K : Type ℓ} {V : Type κ} → Map K V → List V
values [] = []
values ((k, v) ∷ m) = v ∷ values m

abbrev pub or_not_found {ℓ} : {A : Type ℓ} → Option A → Result Error A
or_not_found none = err not_found
or_not_found (some a) = ok a

-- Existing keys are kept where the new record has none.
abbrev pub keep_keys : Option Node → Node → Node
keep_keys none n = n
keep_keys (some existing) n = record n {
  private_key_b64 = if n.private_key_b64 == "" then existing.private_key_b64 else n.private_key_b64;
  public_key_b64 = if n.public_key_b64 == "" then existing.public_key_b64 else n.public_key_b64;
}

unfoldable pub save_node : Node → MemStore → MemStore × Result Error (Unit {0})
save_node n s =
    if n.id == ""
    then (s, err (invalid "node id is required"))
    else (record s { nodes = put n.id (keep_keys (get n.id s.nodes) n) s.nodes }, ok tt)

unfoldable pub get_node : String → MemStore → Result Error Node
get_node id s = or_not_found (get id s.nodes)

-- The loop of `SaveDomain` that takes the default mark off every other domain.
unfoldable pub clear_default : String → Map String Domain → Map String Domain
clear_default name [] = []
clear_default name ((k, existing) ∷ m) =
    (
      k,
      if existing.is_default && not (k == name)
          then record existing { is_default = false }
          else existing,
    )
    ∷ clear_default name m

unfoldable pub save_domain : Domain → MemStore → MemStore × Result Error (Unit {0})
save_domain d s = if d.name == "" then (s, err (invalid "domain name is required")) else (
  record s {
    domains = put d.name d (if d.is_default then clear_default d.name s.domains else s.domains);
  },
  ok tt,
)

unfoldable pub get_domain : String → MemStore → Result Error Domain
get_domain name s = or_not_found (get name s.domains)

-- The first domain with the default mark that `range` meets.
unfoldable pub first_default : Map String Domain → Option Domain
first_default [] = none
first_default ((k, d) ∷ m) = if d.is_default then some d else first_default m

unfoldable pub get_default_domain : MemStore → Result Error Domain
get_default_domain s = or_not_found (first_default s.domains)

abbrev pub domain_le : Domain → Domain → Bool
domain_le a b = string_le a.name b.name

unfoldable pub list_domains : MemStore → List Domain
list_domains s = sort_by domain_le (values s.domains)

unfoldable pub count_domains : MemStore → ℕ
count_domains s = length s.domains

-- The creation time of a record that is there stays.
abbrev pub keep_created_at : Option User → User → User
keep_created_at none u = u
keep_created_at (some existing) u =
    if existing.created_at == 0 then u else record u { created_at = existing.created_at }

unfoldable pub save_user : User → MemStore → MemStore × Result Error (Unit {0})
save_user u s =
    if u.email == ""
    then (s, err (invalid "user email is required"))
    else (record s { users = put u.email (keep_created_at (get u.email s.users) u) s.users }, ok tt)

unfoldable pub get_user : String → MemStore → Result Error User
get_user email s = or_not_found (get email s.users)

abbrev pub user_le : User → User → Bool
user_le a b = string_le a.email b.email

unfoldable pub list_users : MemStore → List User
list_users s = sort_by user_le (values s.users)

unfoldable pub search_users : Map String String → MemStore → List User
search_users filters s =
    sort_by user_le (select (λ u. user_matches_filters u filters) (values s.users))

unfoldable pub count_users : MemStore → ℕ
count_users s = length s.users

abbrev pub job_key : DeliveryJob → String × String
job_key job = (job.message_id, job.recipient_id)

-- The zero fields of a new job get their defaults.
abbrev pub with_defaults : ℕ → DeliveryJob → DeliveryJob
with_defaults now job = record job {
  created_at = if job.created_at == 0 then now else job.created_at;
  updated_at = if job.updated_at == 0 then now else job.updated_at;
  max_attempts = if job.max_attempts == 0 then 5 else job.max_attempts;
}

-- An existing job is left as it is.
abbrev insert_job : Option DeliveryJob → DeliveryJob → MemStore → MemStore
insert_job none job s = record s { delivery_jobs = put (job_key job) job s.delivery_jobs }
insert_job (some existing) job s = s

unfoldable pub save_delivery_job : ℕ → DeliveryJob → MemStore → MemStore
save_delivery_job now job s =
    insert_job (get (job_key job) s.delivery_jobs) (with_defaults now job) s

-- The fields that an update writes.
abbrev pub updated : ℕ → DeliveryJob → DeliveryJob → DeliveryJob
updated now job existing = record existing {
  status = job.status;
  attempts = job.attempts;
  last_error = job.last_error;
  next_retry_at = job.next_retry_at;
  delivered_at = job.delivered_at;
  updated_at = now;
}

abbrev update_job :
    Option DeliveryJob → ℕ → DeliveryJob → MemStore → MemStore × Result Error (Unit {0})
update_job none now job s = (s, err not_found)
update_job (some existing) now job s = (
  record s { delivery_jobs = put (job_key job) (updated now job existing) s.delivery_jobs },
  ok tt,
)

unfoldable pub update_delivery_job : ℕ → DeliveryJob → MemStore → MemStore × Result Error (Unit {0})
update_delivery_job now job s = update_job (get (job_key job) s.delivery_jobs) now job s

unfoldable pub get_delivery_job : String → String → MemStore → Result Error DeliveryJob
get_delivery_job message_id recipient_id s =
    or_not_found (get (message_id, recipient_id) s.delivery_jobs)

-- A job that the sweeper may pick up at the time `before`.
abbrev pub is_due : ℕ → DeliveryJob → Bool
is_due before j =
    (status_eq j.status pending || status_eq j.status failed) && not (ltb before j.next_retry_at)

abbrev pub retry_le : DeliveryJob → DeliveryJob → Bool
retry_le a b = leb a.next_retry_at b.next_retry_at

-- `limit` 0 is no limit.
unfoldable pub list_pending_delivery_jobs : ℕ → ℕ → MemStore → List DeliveryJob
list_pending_delivery_jobs before limit s =
    let out = sort_by retry_le (select (is_due before) (values s.delivery_jobs)) in
    if ltb 0 limit && ltb limit (length out) then take limit out else out

-- `status` `none` is the empty text of the source: any status.
abbrev pub matches_recipient : String → Option DeliveryStatus → DeliveryJob → Bool
matches_recipient recipient_id none j = j.recipient_id == recipient_id
matches_recipient recipient_id (some status) j =
    j.recipient_id == recipient_id && status_eq j.status status

abbrev pub newer_le : DeliveryJob → DeliveryJob → Bool
newer_le a b = leb b.created_at a.created_at

unfoldable pub list_delivery_jobs_by_recipient :
    String → Option DeliveryStatus → MemStore → List DeliveryJob
list_delivery_jobs_by_recipient recipient_id status s =
    sort_by newer_le (select (matches_recipient recipient_id status) (values s.delivery_jobs))
