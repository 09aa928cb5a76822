-- ===== src/Sqlite/Encoded.antt =====
-- The tables that hold what a store of internal/store/memstore holds.
use postbox.Common.{
  Result, err, ◌>>=◌, String, ◌≡◌, refl, ap, Bool, false, ◌&&◌, ◌||◌, not, nat_Eq, string_Eq,
  pair_Eq, List, [], ◌∷◌, ◌==◌, length, ok, map, arith, Bool-cases, inl, inr,
}
use mathlib.Core.Option
use postbox.Common.Map.{get, Map, map_values}
use postbox.Store.{Domain, User}
use postbox.MemStore
use postbox.MemStore.{MemStore, values}
use postbox.Store.{Error}
use postbox.Sqlite.{
  SqlError, not_found, UserRow, Tables, domain_row, scan_domain, scan_domains, first_default,
  default_taken,
}
use postbox.Sqlite.Users.{Json, IsCodec, user_row, scan_user, scan_users}

abbrev pub user_row_of : Json → User → UserRow
user_row_of json u = user_row json u u.created_at

abbrev pub encoded : Json → MemStore → Tables
encoded json s = record {
  nodes = s.nodes;
  domains = map_values domain_row s.domains;
  users = map_values (user_row_of json) s.users;
  webhook_delivery_jobs = s.delivery_jobs;
}

pub values-map_values {ℓ κ μ} :
    {K : Type ℓ} {V : Type κ} {W : Type μ} (f : V → W) (m : Map K V)
    → values (map_values f m) ≡ map f (values m)
values-map_values f [] = refl
values-map_values f ((k, v) ∷ m) = ap (λ t. f v ∷ t) (values-map_values f m)

pub length-map_values {ℓ κ μ} :
    {K : Type ℓ} {V : Type κ} {W : Type μ} (f : V → W) (m : Map K V)
    → length (map_values f m) ≡ length m
length-map_values f [] = refl
length-map_values f ((k, v) ∷ m) = omega (arith, length-map_values f m)

pub scan_domain-domain_row : (d : Domain) → scan_domain (domain_row d) ≡ d
scan_domain-domain_row d = ground arith

pub scan_domains-map : (ds : List Domain) → scan_domains (map domain_row ds) ≡ ds
unfolding scan_domains
scan_domains-map [] = refl
scan_domains-map (d ∷ ds) = cc (scan_domain-domain_row d, scan_domains-map ds)

-- The same user, with the same entries in its metadata.
abbrev pub SameUser : User → User → Type 0
SameUser v u =
    (v.email ≡ u.email)
    × (v.type ≡ u.type)
    × (v.public_key_b64 ≡ u.public_key_b64)
    × (v.created_at ≡ u.created_at)
    × ((k : String) → get k v.metadata ≡ get k u.metadata)

-- The same result of looking up a user.
abbrev pub SameLookup : Result SqlError User → Result Error User → Type 0
SameLookup (ok v) (ok u) = SameUser v u
SameLookup (ok v) (err e) = ⊥
SameLookup (err e) (ok u) = ⊥
SameLookup (err e) (err f) = e ≡ not_found

abbrev pub SameUsers : List User → List User → Type 0
SameUsers [] [] = Unit
SameUsers (v ∷ vs) (u ∷ us) = SameUser v u × SameUsers vs us
SameUsers [] (u ∷ us) = ⊥
SameUsers (v ∷ vs) [] = ⊥

-- The same users in the same order.
abbrev pub SameListing : Result SqlError (List User) → List User → Type 0
SameListing (ok vs) us = SameUsers vs us
SameListing (err e) us = ⊥

pub scan_user-user_row :
    (json : Json)
    → IsCodec json
    → (u : User) → SameLookup (scan_user json (user_row_of json u)) (ok u)
unfolding scan_user
scan_user-user_row json c u = rw (c u.metadata).1 (refl, refl, refl, refl, (c u.metadata).2)

cons_listing :
    (v : Result SqlError User) (u : User) (rest : Result SqlError (List User)) (us : List User)
    → SameLookup v (ok u)
    → SameListing rest us
    → SameListing (v >>= λ w. rest >>= λ ws. ok (w ∷ ws)) (u ∷ us)
cons_listing (ok v) u (ok vs) us h k = (h, k)
cons_listing (ok v) u (err e) us h k = absurd k
cons_listing (err e) u rest us h k = absurd h

pub scan_users-map :
    (json : Json)
    → IsCodec json
    → (us : List User) → SameListing (scan_users json (map (user_row_of json) us)) us
unfolding scan_users
scan_users-map json c [] = tt
scan_users-map json c (u ∷ us) =
    cons_listing (scan_user json (user_row_of json u)) u
      (scan_users json (map (user_row_of json) us)) us (scan_user-user_row json c u)
      (scan_users-map json c us)

pub first_default-map_values :
    (m : Map String Domain)
    → first_default (map_values domain_row m) ≡ Option.map domain_row (MemStore.first_default m)
unfolding first_default MemStore.first_default
first_default-map_values [] = refl
first_default-map_values ((k, d) ∷ m) = elim (Bool-cases d.is_default) [
  | inl e ↦ rw e refl
  | inr e ↦ rw e (first_default-map_values m)
]

-- Another domain than the named one is the default.
unfoldable pub other_default : String → Map String Domain → Bool
other_default name [] = false
other_default name ((k, d) ∷ m) = (not (k == name) && d.is_default) || other_default name m

pub default_taken-map_values :
    (name : String) (m : Map String Domain)
    → default_taken name (map_values domain_row m) ≡ other_default name m
unfolding default_taken other_default
default_taken-map_values name [] = refl
default_taken-map_values name ((k, d) ∷ m) = ground (arith, default_taken-map_values name m)

-- Where no other domain is the default, there is no mark to take off.
pub clear_default_none :
    (name : String) (m : Map String Domain)
    → other_default name m ≡ false
    → MemStore.clear_default name m ≡ m
unfolding other_default MemStore.clear_default
clear_default_none name [] h = refl
clear_default_none name ((k, d) ∷ m) h = elim (Bool-cases (d.is_default && not (k == name))) [
  | inl e ↦ absurd (ground arith)
  | inr e ↦ rw e (ap (λ t. (k, d) ∷ t) (clear_default_none name m (ground arith)))
]
