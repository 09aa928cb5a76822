-- ===== src/Sqlite/Users.antt =====
-- internal/store/sqlite/store.go: the users. The encoding of metadata in JSON, LIKE and json_extract are
-- parameters.
use Prim.Native.String.{◌++◌ as str_append}
use postbox.Common.{
  ℕ, String, Bool, true, false, ◌&&◌, nat_Eq, string_Eq, pair_Eq, Option, none, some, List, [], ◌∷◌,
  ◌==◌, if◌then◌else◌, Result, ok, err, ◌>>=◌, length, select, string_le, ◌≡◌,
}
use postbox.Common.Map.{Map, get, put}
use postbox.Common.Sort.{sort_by}
use postbox.Store.{User, is_valid_meta_key}
use postbox.MemStore.{values}
use postbox.Sqlite.{UserRow, Tables, SqlError, bad_metadata, Fault, exec, query, row_or_not_found}

-- `json.Marshal` and `json.Unmarshal` of metadata.
pub record Json : Type 0 where
  pub marshal : Map String String → String
  pub unmarshal : String → Option (Map String String)

abbrev pub IsCodec : Json → Type 0
IsCodec json =
    (m : Map String String)
    → (m' : Map String String) × (json.unmarshal (json.marshal m) ≡ some m')
      × ((k : String) → get k m' ≡ get k m)

-- `INSERT … ON CONFLICT DO UPDATE`: the creation time of a row that is there stays.
abbrev pub upsert_user : Option UserRow → UserRow → UserRow
upsert_user none r = r
upsert_user (some old) r = record r { created_at = old.created_at }

abbrev pub email_le : UserRow → UserRow → Bool
email_le a b = string_le a.email b.email

module _ (json : Json) where
  abbrev pub user_row : User → ℕ → UserRow
  user_row u created_at = record {
    email = u.email;
    type = u.type;
    public_key = u.public_key_b64;
    metadata = json.marshal u.metadata;
    created_at = created_at;
  }

  -- `SaveUser`
  unfoldable pub save_user : Fault → ℕ → User → Tables → Tables × Result SqlError (Unit {0})
  save_user fault now u t =
      let r = user_row u (if u.created_at == 0 then now else u.created_at) in
      exec fault t
        (record t { users = put u.email (upsert_user (get u.email t.users) r) t.users }, ok tt)

  abbrev pub scanned : UserRow → Option (Map String String) → Result SqlError User
  scanned r none = err bad_metadata
  scanned r (some m) = ok (record {
    email = r.email;
    type = r.type;
    public_key_b64 = r.public_key;
    metadata = m;
    created_at = r.created_at;
  })

  unfoldable pub scan_user : UserRow → Result SqlError User
  scan_user r = scanned r (json.unmarshal r.metadata)

  -- `GetUser`
  unfoldable pub get_user : Fault → String → Tables → Result SqlError User
  unfolding scan_user
  get_user fault email t = query fault (row_or_not_found (get email t.users)) >>= scan_user

  -- `scanUsers`
  unfoldable pub scan_users : List UserRow → Result SqlError (List User)
  unfolding scan_user
  scan_users [] = ok []
  scan_users (r ∷ rs) = let rest = scan_users rs in scan_user r >>= λ u. rest >>= λ us. ok (u ∷ us)

  -- `ListUsers`
  unfoldable pub list_users : Fault → Tables → Result SqlError (List User)
  unfolding scan_users
  list_users fault t = query fault (ok (sort_by email_le (values t.users))) >>= scan_users

  -- A clause of `SearchUsers`, if the key has one. A comparison with NULL is not true.
  abbrev pub clause_of :
      (String → String → Bool)
      → (String → String → Option String)
      → String × String
      → Option (UserRow → Bool)
  clause_of like extract (k, v) =
      let pattern' = str_append "%" (str_append v "%") in
      if k == "type"
      then some (λ r. like r.type pattern')
      else if is_valid_meta_key k
      then some (λ r. elim (extract r.metadata (str_append "$." k)) [
        | none ↦ false
        | some x ↦ like x pattern'
      ])
      else none

  -- The conjunction of the clauses, in any order.
  unfoldable pub where_clauses :
      (String → String → Bool)
      → (String → String → Option String)
      → Map String String
      → UserRow
      → Bool
  where_clauses like extract [] r = true
  where_clauses like extract (f ∷ fs) r = elim (clause_of like extract f) [
    | none ↦ where_clauses like extract fs r
    | some c ↦ c r && where_clauses like extract fs r
  ]

  -- `SearchUsers`
  unfoldable pub search_users :
      (String → String → Bool)
      → (String → String → Option String)
      → Fault
      → Map String String
      → Tables
      → Result SqlError (List User)
  unfolding scan_users where_clauses
  search_users like extract fault filters t =
      query fault
        (ok (sort_by email_le (select (where_clauses like extract filters) (values t.users))))
      >>= scan_users

-- `CountUsers`
unfoldable pub count_users : Fault → Tables → Result SqlError ℕ
count_users fault t = query fault (ok (length t.users))
