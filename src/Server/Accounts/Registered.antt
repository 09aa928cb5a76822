-- ===== src/Server/Accounts/Registered.antt =====
-- What the other RPCs see of a user that was registered.
use postbox.Common.{
  ℕ, String, false, none, some, Option, ◌≡◌, ap, ◌∙◌, sym, ◌≢◌, refl, string_Eq, nat_Eq, ◌==◌,
  Result, ok, err, arith, eq_iff, Bool-cases, Option-cases, inl, inr,
}
use postbox.Common.Map.{get, get-put, AllEntries, AllEntries-get}
use postbox.Store.{User, Error}
use postbox.MemStore.{MemStore, save_user, get_user, keep_created_at}
use postbox.Registry.{Entity, user}
use postbox.Registry.Local.{register}
use postbox.Server.Accounts.{
  RegisterUserRequest, UserProfile, register_user, get_profile, user_to_proto, saved, store_key,
}

abbrev pub requested : String → RegisterUserRequest → UserProfile
requested node_id req = record {
  email = req.email;
  type = req.type;
  public_key = req.public_key;
  metadata = req.metadata;
  node_id = node_id;
}

-- The creation time does not show.
keep_created_at-profile :
    (node_id : String) (o : Option User) (u : User)
    → user_to_proto node_id (keep_created_at o u) ≡ user_to_proto node_id u
unfolding user_to_proto
keep_created_at-profile node_id none u = refl
keep_created_at-profile node_id (some x) u = elim (Bool-cases (x.created_at == 0)) [
  | inl e ↦ rw e refl
  | inr e ↦ rw e refl
]

get-save_user :
    (email : String) (u : User) (s : MemStore)
    → email ≢ ""
    → u.email ≡ email
    → get email (save_user u s).0.users ≡ some (keep_created_at (get u.email s.users) u)
unfolding save_user
get-save_user email u s ne e = ground (
  arith,
  eq_iff u.email "",
  eq_iff u.email email,
  ne,
  e,
  get-put u.email email (keep_created_at (get u.email s.users) u) s.users,
)

module _ (node_id email : String) (named : email ≢ "") where
  -- A saved user has its own profile.
  profile-save_user :
      (u : User) (s : MemStore)
      → u.email ≡ email
      → get_profile node_id email (save_user u s).0 ≡ ok (user_to_proto node_id u)
  unfolding get_profile get_user
  profile-save_user u s e = elim (Bool-cases (email == "")) [
    | inl a ↦ absurd (named ((eq_iff email "").0 a))
    | inr a ↦
        rw (a, get-save_user email u s named e)
          (ap ok (keep_created_at-profile node_id (get u.email s.users) u))
  ]

unnamed : (email : String) → email ≢ "" → (email == "") ≡ false
unnamed email ne = ground (arith, eq_iff email "", ne)

saved-0 : (p : MemStore × Result Error (Unit {0})) → (saved p).0 ≡ p.0
saved-0 (s, ok x) = refl
saved-0 (s, err e) = refl

-- The user that a registration makes.
abbrev first_user : ℕ → RegisterUserRequest → User
first_user now req = record {
  email = req.email;
  type = req.type;
  public_key_b64 = "";
  metadata = req.metadata;
  created_at = now;
}

abbrev again : RegisterUserRequest → User → User
again req u = record u { type = req.type; public_key_b64 = req.public_key; metadata = req.metadata }

abbrev first_entity : RegisterUserRequest → Entity
first_entity req = record {
  type = user;
  name = req.email;
  is_default = false;
  user_type = req.type;
  metadata = req.metadata;
}

module _ (node_id : String) (now : ℕ) (req : RegisterUserRequest) (named : req.email ≢ "") where
  profile-store_key :
      (s : MemStore)
      → get req.email s.users ≡ some (first_user now req)
      → get_profile node_id req.email (store_key req (s, ok tt)).0 ≡ ok (requested node_id req)
  unfolding get_profile get_user user_to_proto
  profile-store_key s h =
      let false_test = unnamed req.email named in
      elim (Bool-cases (req.public_key == "")) [
        | inl e ↦
            let k : req.public_key ≡ "" = (eq_iff req.public_key "").0 e in
            rw (e, h, false_test)
              (ap (λ t. ok (record (requested node_id req) { public_key = t })) (sym k))
        | inr e ↦
            let u = record (first_user now req) { public_key_b64 = req.public_key } in
            rw (e, h)
              (ap (λ t. get_profile node_id req.email t) (saved-0 (save_user u s))
                ∙ profile-save_user node_id req.email named u s refl)
      ]

registered :
    (node_id : String) (now : ℕ) (req : RegisterUserRequest) (s : MemStore)
    → req.email ≢ ""
    → register node_id now (first_entity req) s ≡ ((save_user (first_user now req) s).0, ok tt)
unfolding register save_user
registered node_id now req s ne = rw (unnamed req.email ne) refl

-- After a user with an e-mail address is registered, for the first time or again, `GetUser` returns
-- the profile of the request, in a store whose users stand under their own addresses.
pub get_profile-register_user :
    (node_id : String) (now : ℕ) (req : RegisterUserRequest) (s : MemStore)
    → req.email ≢ ""
    → AllEntries (λ k u. k ≡ u.email) s.users
    → get_profile node_id req.email (register_user node_id now req s).0 ≡ ok (requested node_id req)
unfolding register_user register get_user user_to_proto
get_profile-register_user node_id now req s ne h = elim (Bool-cases (req.email == "")) [
  | inl e ↦ absurd (ne ((eq_iff req.email "").0 e))
  | inr e ↦ elim (Option-cases (get req.email s.users)) [
    | inl a ↦
        rw (e, a)
          (ap (λ p. get_profile node_id req.email (store_key req p).0)
              (registered node_id now req s ne)
            ∙ profile-store_key node_id now req ne (save_user (first_user now req) s).0 (
                get-save_user req.email (first_user now req) s ne refl
                ∙ ap (λ o. some (keep_created_at o (first_user now req))) a))
    | inr (u, a) ↦
        rw (e, a)
          (ap (λ t. get_profile node_id req.email t) (saved-0 (save_user (again req u) s))
            ∙ profile-save_user node_id req.email ne (again req u) s
                (sym (AllEntries-get (λ k u. k ≡ u.email) req.email s.users h a))
            ∙ ap (λ t. ok (record (requested node_id req) { email = t }))
                (sym (AllEntries-get (λ k u. k ≡ u.email) req.email s.users h a)))
  ]
]
