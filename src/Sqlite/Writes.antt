-- ===== src/Sqlite/Writes.antt =====
-- What is written to SQLite and to the store in memory stays alike.
use postbox.Common.{
  ℕ, String, ◌≡◌, ◌≢◌, refl, ap, ◌∙◌, false, ◌&&◌, nat_Eq, string_Eq, pair_Eq, Option, none, some,
  List, [], ◌∷◌, ◌==◌, if◌then◌else◌, arith, Bool-cases, Option-cases, inl, inr, eq_iff,
}
use postbox.Common.Map.{
  Map, get, map_values, get-map_values, put-map_values, AllEntries, AllEntries-put, AllEntries-get,
}
use postbox.Store.{Node, Domain, User, DeliveryJob}
use postbox.MemStore
use postbox.MemStore.{
  MemStore, keep_created_at, values, job_key, domain_le, user_le, or_not_found, is_due, retry_le,
}
use postbox.MemStore.Trace.{Write, node, domain, user, new_job, job_update, write, writes}
use postbox.Sqlite.{Tables, save_node, save_domain, domain_row}
use postbox.Sqlite.Users.{Json, user_row, upsert_user, save_user}
use postbox.Sqlite.Jobs.{save_delivery_job, update_delivery_job}
use postbox.Sqlite.Encoded.{
  user_row_of, encoded, other_default, default_taken-map_values, clear_default_none,
}

-- A write to the tables at a time, where the database does not fail.
unfoldable pub write_tables : Json → ℕ → Write → Tables → Tables
write_tables json now (node n) t = (save_node none n t).0
write_tables json now (domain d) t = (save_domain none d t).0
write_tables json now (user u) t = (save_user json none now u t).0
write_tables json now (new_job at j) t = (save_delivery_job none at j t).0
write_tables json now (job_update at j) t = (update_delivery_job none at j t).0

unfoldable pub writes_tables : Json → ℕ → List Write → Tables → Tables
unfolding write_tables
writes_tables json now [] t = t
writes_tables json now (w ∷ ws) t = writes_tables json now ws (write_tables json now w t)

-- The writes that both stores take alike: domains and users have names, no second domain becomes the
-- default, and users have a creation time.
abbrev pub Fits : Write → MemStore → Type 0
Fits (domain d) s = (d.name ≢ "") × ((d.is_default && other_default d.name s.domains) ≡ false)
Fits (user u) s = (u.email ≢ "") × (u.created_at ≢ 0)
Fits (node n) s = Unit
Fits (new_job at j) s = Unit
Fits (job_update at j) s = Unit

abbrev pub AllFit : List Write → MemStore → Type 0
AllFit [] s = Unit
AllFit (w ∷ ws) s = Fits w s × AllFit ws (write w s)

abbrev pub Dated : MemStore → Type 0
Dated s = AllEntries (λ k u. u.created_at ≢ 0) s.users

unnamed : (t : String) → t ≢ "" → (t == "") ≡ false
unnamed t ne = ground (arith, eq_iff t "", ne)

cleared_none :
    (d : Domain) (m : Map String Domain)
    → (d.is_default && other_default d.name m) ≡ false
    → (if d.is_default then MemStore.clear_default d.name m else m) ≡ m
cleared_none d m h = elim (Bool-cases d.is_default) [
  | inl e ↦ rw e (clear_default_none d.name m (ground (arith, h, e)))
  | inr e ↦ rw e refl
]

row_kept :
    (json : Json) (now : ℕ) (u : User) (m : Map String User)
    → u.created_at ≢ 0
    → AllEntries (λ k x. x.created_at ≢ 0) m
    → upsert_user
        (get u.email (map_values (user_row_of json) m))
        (user_row json u (if u.created_at == 0 then now else u.created_at))
      ≡ user_row_of json (keep_created_at (get u.email m) u)
row_kept json now u m dated h = elim (Option-cases (get u.email m)) [
  | inl e ↦ rw (get-map_values, e) (ground arith)
  | inr (x, e) ↦
      let old : x.created_at ≢ 0 = AllEntries-get (λ k y. y.created_at ≢ 0) u.email m h e in
      rw (get-map_values, e) (ground arith)
]

module _ (json : Json) (now : ℕ) where
  save_node-encoded :
      (n : Node) (s : MemStore)
      → (save_node none n (encoded json s)).0 ≡ encoded json (MemStore.save_node n s).0
  unfolding save_node MemStore.save_node
  save_node-encoded n s = elim (Bool-cases (n.id == "")) [ inl e ↦ rw e refl | inr e ↦ rw e refl ]

  save_domain-encoded :
      (d : Domain) (s : MemStore)
      → d.name ≢ ""
      → (d.is_default && other_default d.name s.domains) ≡ false
      → (save_domain none d (encoded json s)).0 ≡ encoded json (MemStore.save_domain d s).0
  unfolding save_domain MemStore.save_domain
  save_domain-encoded d s named h =
      rw (default_taken-map_values, h, unnamed d.name named, cleared_none d s.domains h)
        (ap (λ m. record (encoded json s) { domains = m })
          (put-map_values domain_row d.name d s.domains))

  save_user-encoded :
      (u : User) (s : MemStore)
      → u.email ≢ ""
      → u.created_at ≢ 0
      → Dated s
      → (save_user json none now u (encoded json s)).0 ≡ encoded json (MemStore.save_user u s).0
  unfolding save_user MemStore.save_user
  save_user-encoded u s named dated h =
      rw (unnamed u.email named, row_kept json now u s.users dated h)
        (ap (λ m. record (encoded json s) { users = m })
          (put-map_values (user_row_of json) u.email (keep_created_at (get u.email s.users) u)
            s.users))

  save_delivery_job-encoded :
      (at : ℕ) (j : DeliveryJob) (s : MemStore)
      → (save_delivery_job none at j (encoded json s)).0
        ≡ encoded json (MemStore.save_delivery_job at j s)
  unfolding save_delivery_job MemStore.save_delivery_job
  save_delivery_job-encoded at j s = elim (Option-cases (get (job_key j) s.delivery_jobs)) [
    | inl e ↦ rw e refl
    | inr (a, e) ↦ rw e refl
  ]

  update_delivery_job-encoded :
      (at : ℕ) (j : DeliveryJob) (s : MemStore)
      → (update_delivery_job none at j (encoded json s)).0
        ≡ encoded json (MemStore.update_delivery_job at j s).0
  unfolding update_delivery_job MemStore.update_delivery_job
  update_delivery_job-encoded at j s = elim (Option-cases (get (job_key j) s.delivery_jobs)) [
    | inl e ↦ rw e refl
    | inr (a, e) ↦ rw e refl
  ]

  write-encoded :
      (w : Write) (s : MemStore)
      → Fits w s
      → Dated s
      → write_tables json now w (encoded json s) ≡ encoded json (write w s)
  unfolding write_tables write
  write-encoded (node n) s f h = save_node-encoded n s
  write-encoded (domain d) s f h = save_domain-encoded d s f.0 f.1
  write-encoded (user u) s f h = save_user-encoded u s f.0 f.1 h
  write-encoded (new_job at j) s f h = save_delivery_job-encoded at j s
  write-encoded (job_update at j) s f h = update_delivery_job-encoded at j s

kept_dated : (o : Option User) (u : User) → u.created_at ≢ 0 → (keep_created_at o u).created_at ≢ 0
kept_dated none u h = h
kept_dated (some x) u h = ground arith

users_node : (n : Node) (s : MemStore) → (MemStore.save_node n s).0.users ≡ s.users
unfolding MemStore.save_node
users_node n s = ground arith

users_domain : (d : Domain) (s : MemStore) → (MemStore.save_domain d s).0.users ≡ s.users
unfolding MemStore.save_domain
users_domain d s = ground arith

users_new_job :
    (at : ℕ) (j : DeliveryJob) (s : MemStore) → (MemStore.save_delivery_job at j s).users ≡ s.users
unfolding MemStore.save_delivery_job
users_new_job at j s = ground arith

users_job_update :
    (at : ℕ) (j : DeliveryJob) (s : MemStore)
    → (MemStore.update_delivery_job at j s).0.users ≡ s.users
unfolding MemStore.update_delivery_job
users_job_update at j s = ground arith

module _ (s : MemStore) (h : Dated s) where
  save_user-Dated : (u : User) → u.email ≢ "" → u.created_at ≢ 0 → Dated (MemStore.save_user u s).0
  unfolding MemStore.save_user
  save_user-Dated u named dated = rw (unnamed u.email named) (
      AllEntries-put (λ k x. x.created_at ≢ 0) u.email _ s.users
        (kept_dated (get u.email s.users) u dated) h)

  Dated-eq : (s' : MemStore) → s'.users ≡ s.users → Dated s'
  Dated-eq s' e = rw e h

write-Dated : (w : Write) (s : MemStore) → Fits w s → Dated s → Dated (write w s)
unfolding write
write-Dated (node n) s f h = Dated-eq s h (MemStore.save_node n s).0 (users_node n s)
write-Dated (domain d) s f h = Dated-eq s h (MemStore.save_domain d s).0 (users_domain d s)
write-Dated (user u) s f h = save_user-Dated s h u f.0 f.1
write-Dated (new_job at j) s f h =
    Dated-eq s h (MemStore.save_delivery_job at j s) (users_new_job at j s)
write-Dated (job_update at j) s f h =
    Dated-eq s h (MemStore.update_delivery_job at j s).0 (users_job_update at j s)

pub writes-encoded :
    (json : Json) (now : ℕ) (ws : List Write) (s : MemStore)
    → AllFit ws s
    → Dated s
    → writes_tables json now ws (encoded json s) ≡ encoded json (writes ws s)
unfolding writes_tables writes
writes-encoded json now [] s f h = refl
writes-encoded json now (w ∷ ws) s f h =
    ap (writes_tables json now ws) (write-encoded json now w s f.0 h)
    ∙ writes-encoded json now ws (write w s) f.1 (write-Dated w s f.0 h)
