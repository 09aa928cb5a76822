-- ===== src/Store.antt =====
-- internal/store/store.go: the records that a node keeps, and the predicates on them.
-- A `time.Time` is the number of nanoseconds since Go's zero time, so `IsZero` is a test for 0.
use Prim.Native.Char.{code}
use postbox.Common.{
  ℕ, String, Bool, true, false, ◌&&◌, ◌||◌, nat_Eq, string_Eq, Option, [], ◌∷◌, ◌==◌, leb,
  if◌then◌else◌, contains, get_or_empty,
}
use postbox.Common.Map.{Map, get}

pub record Node : Type 0 where
  pub id : String
  pub private_key_b64 : String
  pub public_key_b64 : String

pub record Domain : Type 0 where
  pub name : String
  pub node_id : String
  pub is_default : Bool

pub record User : Type 0 where
  pub email : String
  pub type : String
  pub public_key_b64 : String
  pub metadata : Map String String
  pub created_at : ℕ

pub data DeliveryStatus : Type 0 where
  pending delivered failed dead : DeliveryStatus

abbrev pub status_eq : DeliveryStatus → DeliveryStatus → Bool
status_eq pending pending = true
status_eq delivered delivered = true
status_eq failed failed = true
status_eq dead dead = true
status_eq _ _ = false

pub record DeliveryJob : Type 0 where
  pub message_id : String
  pub recipient_id : String
  pub endpoint_url : String
  pub status : DeliveryStatus
  pub attempts : ℕ
  pub max_attempts : ℕ
  pub last_error : String
  pub next_retry_at : ℕ
  pub delivered_at : Option ℕ
  pub created_at : ℕ
  pub updated_at : ℕ

-- `ErrNotFound`, and the `invalidArgError` of memstore with its message.
pub data Error : Type 0 where
  not_found : Error
  invalid : String → Error

-- A read of a `map[string]string`: the empty text where the key is missing.
abbrev pub read : String → Map String String → String
read k m = get_or_empty (get k m)

unfoldable pub user_matches_filters : User → Map String String → Bool
user_matches_filters u [] = true
user_matches_filters u ((k, v) ∷ rest) =
    (if k == "type" then contains u.type v else contains (read k u.metadata) v)
    && user_matches_filters u rest

-- The characters that may stand in a JSON path.
unfoldable pub is_meta_char : ℕ → Bool
is_meta_char c =
    (leb b'a' c && leb c b'z')
    || (leb b'A' c && leb c b'Z')
    || (leb b'0' c && leb c b'9')
    || c == b'_'
    || c == b'-'

-- The loop of `IsValidMetaKey`.
unfoldable pub all_meta_chars : String → Bool
unfolding is_meta_char
all_meta_chars String.[] = true
all_meta_chars (String.◌∷◌ c s) = is_meta_char (code c) && all_meta_chars s

unfoldable pub is_valid_meta_key : String → Bool
unfolding all_meta_chars
is_valid_meta_key k = if k == "" then false else all_meta_chars k
