-- ===== src/MemStore/Kept.antt =====
-- What no write to the in-memory store takes back: the keys of a node, the creation time of a user,
-- and the identity of a delivery job.
use postbox.Common.{
  ℕ, String, ◌≡◌, ◌≢◌, inl, inr, Option, none, some, List, string_Eq, pair_Eq, arith, eq_iff,
  pair_beq_iff, Option-cases,
}
use postbox.Common.Map.{get, get-put}
use postbox.Store.{Node, User, DeliveryJob}
use postbox.MemStore.{
  MemStore, save_node, get_node, save_domain, save_user, save_delivery_job, update_delivery_job,
  job_key, with_defaults, updated, keep_created_at, keep_keys,
}
use postbox.MemStore.Trace.{
  Write, node, domain, user, new_job, job_update, write, writes, writes-keep,
}

key_of : Option Node → String
key_of none = ""
key_of (some n) = n.private_key_b64

-- The private key of a node in the store; empty where there is no node, or no key.
unfoldable pub private_key : String → MemStore → String
unfolding key_of get_node
private_key id s = key_of (get id s.nodes)

-- The creation time of a user in the store.
unfoldable pub user_created_at : String → MemStore → Option ℕ
user_created_at email s = elim (get email s.users) [ none ↦ none | some u ↦ some u.created_at ]

-- The endpoint of a delivery job in the store, the bound on its attempts, and its creation time.
unfoldable pub job_identity : String × String → MemStore → Option (String × ℕ × ℕ)
job_identity k s = elim (get k s.delivery_jobs) [
  | none ↦ none
  | some j ↦ some (j.endpoint_url, j.max_attempts, j.created_at)
]

save_node-key :
    (id : String) (n : Node) (s : MemStore)
    → private_key id s ≢ ""
    → private_key id (save_node n s).0 ≢ ""
unfolding save_node private_key
save_node-key id n s h = ground (
  arith,
  eq_iff n.id id,
  eq_iff n.id "",
  eq_iff n.private_key_b64 "",
  get-put n.id id (keep_keys (get n.id s.nodes) n) s.nodes,
)

save_user-created :
    (email : String) (u : User) (s : MemStore) (t : ℕ)
    → t ≢ 0
    → user_created_at email s ≡ some t
    → user_created_at email (save_user u s).0 ≡ some t
unfolding save_user user_created_at
save_user-created email u s t nz h = ground (
  arith,
  eq_iff u.email email,
  eq_iff u.email "",
  get-put u.email email (keep_created_at (get u.email s.users) u) s.users,
)

save_delivery_job-identity :
    (k : String × String) (now : ℕ) (j : DeliveryJob) (s : MemStore) {x : String × ℕ × ℕ}
    → job_identity k s ≡ some x
    → job_identity k (save_delivery_job now j s) ≡ some x
unfolding save_delivery_job job_identity
save_delivery_job-identity k now j s h =
    ground (
      arith,
      pair_beq_iff (job_key j) k,
      get-put (job_key j) k (with_defaults now j) s.delivery_jobs,
    )

update_delivery_job-identity :
    (k : String × String) (now : ℕ) (j : DeliveryJob) (s : MemStore) {x : String × ℕ × ℕ}
    → job_identity k s ≡ some x
    → job_identity k (update_delivery_job now j s).0 ≡ some x
unfolding update_delivery_job job_identity
update_delivery_job-identity k now j s h = elim (Option-cases (get (job_key j) s.delivery_jobs)) [
  | inl e ↦ rw e h
  | inr (a, e) ↦ rw e (
      ground (
        arith,
        pair_beq_iff (job_key j) k,
        get-put (job_key j) k (updated now j a) s.delivery_jobs,
      ))
]

module _ (id : String) where
  write-key : (w : Write) (s : MemStore) → private_key id s ≢ "" → private_key id (write w s) ≢ ""
  unfolding write private_key save_domain save_user save_delivery_job update_delivery_job
  write-key (node n) s h = save_node-key id n s h
  write-key (domain d) s h = ground arith
  write-key (user u) s h = ground arith
  write-key (new_job now j) s h = ground arith
  write-key (job_update now j) s h = ground arith

  -- A node that has a private key has one after any writes.
  pub writes-private_key :
      (ws : List Write) (s : MemStore) → private_key id s ≢ "" → private_key id (writes ws s) ≢ ""
  writes-private_key = writes-keep (λ s. private_key id s ≢ "") write-key

module _ (email : String) (t : ℕ) (nz : t ≢ 0) where
  write-created :
      (w : Write) (s : MemStore)
      → user_created_at email s ≡ some t
      → user_created_at email (write w s) ≡ some t
  unfolding write user_created_at save_node save_domain save_delivery_job update_delivery_job
  write-created (node n) s h = ground arith
  write-created (domain d) s h = ground arith
  write-created (user u) s h = save_user-created email u s t nz h
  write-created (new_job now j) s h = ground arith
  write-created (job_update now j) s h = ground arith

  -- A user with a creation time keeps it through any writes.
  pub writes-user_created_at :
      (ws : List Write) (s : MemStore)
      → user_created_at email s ≡ some t
      → user_created_at email (writes ws s) ≡ some t
  writes-user_created_at = writes-keep (λ s. user_created_at email s ≡ some t) write-created

module _ (k : String × String) (x : String × ℕ × ℕ) where
  write-identity :
      (w : Write) (s : MemStore) → job_identity k s ≡ some x → job_identity k (write w s) ≡ some x
  unfolding write job_identity save_node save_domain save_user
  write-identity (node n) s h = ground arith
  write-identity (domain d) s h = ground arith
  write-identity (user u) s h = ground arith
  write-identity (new_job now j) s h = save_delivery_job-identity k now j s h
  write-identity (job_update now j) s h = update_delivery_job-identity k now j s h

  -- A saved job keeps its endpoint, the bound on its attempts and its creation time through any
  -- writes, so also when the same job is saved again.
  pub writes-job_identity :
      (ws : List Write) (s : MemStore)
      → job_identity k s ≡ some x
      → job_identity k (writes ws s) ≡ some x
  writes-job_identity = writes-keep (λ s. job_identity k s ≡ some x) write-identity
