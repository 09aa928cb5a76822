-- ===== src/Sqlite/Search.antt =====
-- The filters that a search in SQLite applies.
use postbox.Common.{
  String, Bool, ◌||◌, ◌≡◌, ◌>>=◌, refl, ap, Option, [], ◌∷◌, string_Eq, ◌==◌, select, ok, arith,
}
use mathlib.Core.Path.{fun_ext}
use postbox.Common.Map.{Map}
use postbox.Common.Sort.{sort_by}
use postbox.MemStore.{values}
use postbox.Store.{is_valid_meta_key}
use postbox.Sqlite.{Tables, Fault, UserRow, query}
use postbox.Sqlite.Users.{Json, where_clauses, search_users, email_le, scan_users}

-- The filters by type, and those whose key may stand in a JSON path.
abbrev pub applied : String × String → Bool
applied (k, v) = k == "type" || is_valid_meta_key k

module _ (json : Json) (like : String → String → Bool)
    (extract : String → String → Option String) where
  where_clauses-applied :
      (fs : Map String String) (r : UserRow)
      → where_clauses json like extract fs r ≡ where_clauses json like extract (select applied fs) r
  unfolding where_clauses
  where_clauses-applied [] r = refl
  where_clauses-applied ((k, v) ∷ fs) r = ground (arith, where_clauses-applied fs r)

  -- A search leaves out every filter whose key may not stand in a JSON path: its result is that of the
  -- other filters alone.
  pub search_users-applied :
      (fault : Fault) (filters : Map String String) (t : Tables)
      → search_users json like extract fault filters t
        ≡ search_users json like extract fault (select applied filters) t
  unfolding search_users
  search_users-applied fault filters t =
      ap (λ p. query fault (ok (sort_by email_le (select p (values t.users)))) >>= scan_users json)
        (fun_ext (where_clauses-applied filters))
