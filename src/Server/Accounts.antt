-- ===== src/Server/Accounts.antt =====
-- internal/server/server.go: the RPCs on users, and the reads of delivery jobs and of the node's status.
-- A time in RFC 3339 is a parameter's result; int32 fields hold the values of the store, which are small.
pub mod Registered
use postbox.Common.{
  ℕ, String, Bool, true, false, Option, none, some, List, [], ◌∷◌, string_Eq, nat_Eq, ◌==◌,
  if◌then◌else◌, Result, ok, err, map,
}
use postbox.Common.Map.{Map}
use postbox.Store.{User, DeliveryJob, DeliveryStatus, Error, not_found}
use postbox.MemStore.{
  MemStore, save_user, get_user, search_users, list_users, get_delivery_job, count_domains,
  count_users,
}
use postbox.Registry.{Entity, user, RegistryError}
use postbox.Registry.Local.{register}
use postbox.Server.{Code, invalid_argument, unknown, internal}

pub record RegisterUserRequest : Type 0 where
  pub email : String
  pub type : String
  pub public_key : String
  pub metadata : Map String String

abbrev pub saved : MemStore × Result Error (Unit {0}) → MemStore × Result Code (Unit {0})
saved (s, ok x) = (s, ok tt)
saved (s, err e) = (s, err internal)

-- The user without any field, which is used where `GetUser` fails.
abbrev no_user : User
no_user = record { email = ""; type = ""; public_key_b64 = ""; metadata = []; created_at = 0 }

abbrev or_no_user : Result Error User → User
or_no_user (ok u) = u
or_no_user (err e) = no_user

-- The public key is stored in a second write.
abbrev pub store_key :
    RegisterUserRequest
    → MemStore × Result RegistryError (Unit {0})
    → MemStore × Result Code (Unit {0})
store_key req (s, err e) = (s, err internal)
store_key req (s, ok x) =
    if req.public_key == ""
    then (s, ok tt)
    else saved (
        save_user (record (or_no_user (get_user req.email s)) { public_key_b64 = req.public_key })
          s)

-- What `RegisterUser` does once the user is looked up.
abbrev pub user_found :
    String
    → ℕ
    → RegisterUserRequest
    → Result Error User
    → MemStore
    → MemStore × Result Code (Unit {0})
user_found node_id now req (ok existing) s = saved (
    save_user
      (record existing {
        type = req.type;
        public_key_b64 = req.public_key;
        metadata = req.metadata;
      })
      s)
user_found node_id now req (err not_found) s = store_key req (
    register node_id now
      (record {
        type = user;
        name = req.email;
        is_default = false;
        user_type = req.type;
        metadata = req.metadata;
      })
      s)
user_found node_id now req (err e) s = (s, err internal)

-- `RegisterUser`
unfoldable pub register_user :
    String → ℕ → RegisterUserRequest → MemStore → MemStore × Result Code (Unit {0})
register_user node_id now req s =
    if req.email == ""
    then (s, err invalid_argument)
    else user_found node_id now req (get_user req.email s) s

pub record UserProfile : Type 0 where
  pub email : String
  pub type : String
  pub public_key : String
  pub metadata : Map String String
  pub node_id : String

-- `userToProto`
unfoldable pub user_to_proto : String → User → UserProfile
user_to_proto node_id u = record {
  email = u.email;
  type = u.type;
  public_key = u.public_key_b64;
  metadata = u.metadata;
  node_id = node_id;
}

abbrev pub profile_of : String → Result Error User → Result Code UserProfile
profile_of node_id (ok u) = ok (user_to_proto node_id u)
profile_of node_id (err not_found) = err unknown
profile_of node_id (err e) = err internal

-- `GetUser`
unfoldable pub get_profile : String → String → MemStore → Result Code UserProfile
unfolding user_to_proto
get_profile node_id email s =
    if email == "" then err invalid_argument else profile_of node_id (get_user email s)

-- `SearchUsers`
unfoldable pub search_profiles : String → Map String String → MemStore → List UserProfile
search_profiles node_id filters s = map (user_to_proto node_id) (search_users filters s)

-- `ListUsers`
unfoldable pub list_profiles : String → MemStore → List UserProfile
list_profiles node_id s = map (user_to_proto node_id) (list_users s)

pub record StatusReport : Type 0 where
  pub node_id : String
  pub mode : String
  pub domain_count : ℕ
  pub user_count : ℕ
  pub mailbox_connected : Bool

-- `GetStatus`
unfoldable pub get_status : String → String → Bool → MemStore → StatusReport
get_status node_id mode connected s = record {
  node_id = node_id;
  mode = mode;
  domain_count = count_domains s;
  user_count = count_users s;
  mailbox_connected = connected;
}

pub record DeliveryReport : Type 0 where
  pub message_id : String
  pub recipient_id : String
  pub endpoint_url : String
  pub status : DeliveryStatus
  pub attempts : ℕ
  pub max_attempts : ℕ
  pub last_error : String
  pub next_retry_at : String
  pub delivered_at : String

-- `deliveryJobToProto`, with `Format(time.RFC3339)`.
unfoldable pub delivery_job_to_proto : (ℕ → String) → DeliveryJob → DeliveryReport
delivery_job_to_proto format j = record {
  message_id = j.message_id;
  recipient_id = j.recipient_id;
  endpoint_url = j.endpoint_url;
  status = j.status;
  attempts = j.attempts;
  max_attempts = j.max_attempts;
  last_error = j.last_error;
  next_retry_at = if j.next_retry_at == 0 then "" else format j.next_retry_at;
  delivered_at = elim j.delivered_at [ none ↦ "" | some t ↦ format t ];
}

abbrev report_of : (ℕ → String) → Result Error DeliveryJob → Result Code DeliveryReport
report_of format (ok j) = ok (delivery_job_to_proto format j)
report_of format (err not_found) = err unknown
report_of format (err e) = err internal

-- `GetDeliveryStatus`
unfoldable pub get_delivery_status :
    (ℕ → String) → String → String → MemStore → Result Code DeliveryReport
unfolding delivery_job_to_proto
get_delivery_status format message_id recipient_id s =
    if message_id == ""
    then err invalid_argument
    else if recipient_id == ""
    then err invalid_argument
    else report_of format (get_delivery_job message_id recipient_id s)
