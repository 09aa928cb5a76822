-- ===== src/MemStore/Trace.antt =====
-- Any sequence of writes to the in-memory store: what is valid stays valid, and what a record keeps
-- for good is kept whatever is written later.
use postbox.Common.{
  ℕ, String, ◌≡◌, refl, inl, inr, List, [], ◌∷◌, string_Eq, pair_Eq, arith, Bool-cases,
  Option-cases, ◌==◌,
}
use postbox.Common.Map.{
  Map, get, put, UniqueKeys, UniqueKeys-put, AllEntries, AllEntries-put, AllEntries-get,
}
use postbox.Store.{Node, Domain, User, DeliveryJob}
use postbox.MemStore.{
  MemStore, new, save_node, save_domain, save_user, save_delivery_job, update_delivery_job, job_key,
  keep_created_at, with_defaults, updated,
}
use postbox.MemStore.Domains.{DomainsValid, save_domain-DomainsValid}

pub data Write : Type 0 where
  node : Node → Write
  domain : Domain → Write
  user : User → Write
  new_job : ℕ → DeliveryJob → Write
  job_update : ℕ → DeliveryJob → Write

unfoldable pub write : Write → MemStore → MemStore
write (node n) s = (save_node n s).0
write (domain d) s = (save_domain d s).0
write (user u) s = (save_user u s).0
write (new_job now j) s = save_delivery_job now j s
write (job_update now j) s = (update_delivery_job now j s).0

-- The writes of a list, in order.
unfoldable pub writes : List Write → MemStore → MemStore
writes [] s = s
writes (w ∷ ws) s = writes ws (write w s)

-- A property that one write keeps is kept by any writes.
module _ {ℓ} (P : MemStore → Type ℓ) (keep : (w : Write) (s : MemStore) → P s → P (write w s)) where
  pub writes-keep : (ws : List Write) (s : MemStore) → P s → P (writes ws s)
  unfolding writes
  writes-keep [] s h = h
  writes-keep (w ∷ ws) s h = writes-keep ws (write w s) (keep w s h)

pub record IsValid (s : MemStore) : Type 0 where
  pub nodes_unique : UniqueKeys s.nodes
  pub domains_valid : DomainsValid s.domains
  pub users_unique : UniqueKeys s.users
  pub users_named : AllEntries (λ k u. k ≡ u.email) s.users
  pub jobs_unique : UniqueKeys s.delivery_jobs
  pub jobs_keyed : AllEntries (λ k j. k ≡ job_key j) s.delivery_jobs

module _ (d : Domain) (s : MemStore) where
  unsaved :
      ((save_domain d s).0.nodes ≡ s.nodes)
      × ((save_domain d s).0.users ≡ s.users)
      × ((save_domain d s).0.delivery_jobs ≡ s.delivery_jobs)
  unfolding save_domain
  unsaved = ground arith

-- The parts of a valid store that a write to one map leaves alone.
module _ (s : MemStore) (v : IsValid s) where
  with_nodes : (m : Map String Node) → UniqueKeys m → IsValid (record s { nodes = m })
  with_nodes m u = record {
    nodes_unique = u;
    domains_valid = v.domains_valid;
    users_unique = v.users_unique;
    users_named = v.users_named;
    jobs_unique = v.jobs_unique;
    jobs_keyed = v.jobs_keyed;
  }

  with_users :
      (m : Map String User)
      → UniqueKeys m
      → AllEntries (λ k u. k ≡ u.email) m
      → IsValid (record s { users = m })
  with_users m u n = record {
    nodes_unique = v.nodes_unique;
    domains_valid = v.domains_valid;
    users_unique = u;
    users_named = n;
    jobs_unique = v.jobs_unique;
    jobs_keyed = v.jobs_keyed;
  }

  with_jobs :
      (m : Map (String × String) DeliveryJob)
      → UniqueKeys m
      → AllEntries (λ k j. k ≡ job_key j) m
      → IsValid (record s { delivery_jobs = m })
  with_jobs m u n = record {
    nodes_unique = v.nodes_unique;
    domains_valid = v.domains_valid;
    users_unique = v.users_unique;
    users_named = v.users_named;
    jobs_unique = u;
    jobs_keyed = n;
  }

  put_job :
      (k : String × String) (j : DeliveryJob)
      → k ≡ job_key j
      → IsValid (record s { delivery_jobs = put k j s.delivery_jobs })
  put_job k j e =
      with_jobs _ (UniqueKeys-put k j s.delivery_jobs v.jobs_unique)
        (AllEntries-put _ k j s.delivery_jobs e v.jobs_keyed)

  save_node-IsValid : (n : Node) → IsValid (save_node n s).0
  unfolding save_node
  save_node-IsValid n = elim (Bool-cases (n.id == "")) [
    | inl e ↦ rw e v
    | inr e ↦ rw e (with_nodes _ (UniqueKeys-put n.id _ s.nodes v.nodes_unique))
  ]

  email_kept : (u : User) → u.email ≡ (keep_created_at (get u.email s.users) u).email
  email_kept u = ground arith

  save_user-IsValid : (u : User) → IsValid (save_user u s).0
  unfolding save_user
  save_user-IsValid u = elim (Bool-cases (u.email == "")) [
    | inl e ↦ rw e v
    | inr e ↦ rw e (
        with_users _ (UniqueKeys-put u.email _ s.users v.users_unique)
          (AllEntries-put _ u.email _ s.users (email_kept u) v.users_named))
  ]

  save_domain-IsValid : (d : Domain) → IsValid (save_domain d s).0
  save_domain-IsValid d = record {
    nodes_unique = rw (unsaved d s).0 v.nodes_unique;
    domains_valid = save_domain-DomainsValid d s v.domains_valid;
    users_unique = rw (unsaved d s).1 v.users_unique;
    users_named = rw (unsaved d s).1 v.users_named;
    jobs_unique = rw (unsaved d s).2 v.jobs_unique;
    jobs_keyed = rw (unsaved d s).2 v.jobs_keyed;
  }

  save_delivery_job-IsValid : (now : ℕ) (j : DeliveryJob) → IsValid (save_delivery_job now j s)
  unfolding save_delivery_job
  save_delivery_job-IsValid now j = elim (Option-cases (get (job_key j) s.delivery_jobs)) [
    | inl e ↦ rw e (put_job (job_key j) (with_defaults now j) refl)
    | inr (a, e) ↦ rw e v
  ]

  update_delivery_job-IsValid :
      (now : ℕ) (j : DeliveryJob) → IsValid (update_delivery_job now j s).0
  unfolding update_delivery_job
  update_delivery_job-IsValid now j = elim (Option-cases (get (job_key j) s.delivery_jobs)) [
    | inl e ↦ rw e v
    | inr (a, e) ↦ rw e (
        put_job (job_key j) (updated now j a)
          (AllEntries-get (λ k x. k ≡ job_key x) (job_key j) s.delivery_jobs v.jobs_keyed e))
  ]

write-IsValid : (w : Write) (s : MemStore) → IsValid s → IsValid (write w s)
unfolding write
write-IsValid (node n) s v = save_node-IsValid s v n
write-IsValid (domain d) s v = save_domain-IsValid s v d
write-IsValid (user u) s v = save_user-IsValid s v u
write-IsValid (new_job now j) s v = save_delivery_job-IsValid s v now j
write-IsValid (job_update now j) s v = update_delivery_job-IsValid s v now j

new-IsValid : IsValid new
unfolding new get
new-IsValid = record {
  nodes_unique = tt;
  domains_valid = record { unique = tt; named = tt; one_default = λ j k p q. cc };
  users_unique = tt;
  users_named = tt;
  jobs_unique = tt;
  jobs_keyed = tt;
}

-- Whatever is written to a new store, no key stands twice, every domain, user and job stands under
-- its own key, and at most one domain is the default.
pub writes-IsValid : (ws : List Write) → IsValid (writes ws new)
writes-IsValid ws = writes-keep IsValid write-IsValid ws new new-IsValid
