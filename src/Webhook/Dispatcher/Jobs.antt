-- ===== src/Webhook/Dispatcher/Jobs.antt =====
-- One job of the dispatcher: what holds of the jobs that are queued and of those in the store.
use postbox.Common.{
  ℕ, zero, suc, sym, ◌≤◌, ◌<◌, ◌≡◌, String, Bool, true, false, ◌&&◌, some, List, [], ◌∷◌, string_Eq,
  pair_Eq, ltb, arith, length, length-append, select, All, All-append, All-take, inl, inr,
  Bool-cases, Option-cases,
}
use postbox.Common.Map.{Map, get, AllEntries, AllEntries-put, AllEntries-get}
use postbox.Common.Sort.{sort_by, All-sort_by}
use postbox.Store.{DeliveryJob, DeliveryStatus, pending, failed}
use postbox.MemStore.{
  MemStore, values, save_delivery_job, update_delivery_job, list_pending_delivery_jobs, is_due,
  retry_le, job_key, with_defaults, updated,
}
use postbox.Webhook.Dispatcher.{
  Config, Meets, capacity, offer, attempted_job, attempt, job_at, remove_at,
}

abbrev pub is_live : DeliveryStatus → Bool
is_live pending = true
is_live failed = true
is_live _ = false

-- The job was made under this bound on the attempts, has not passed it, and is below it while it may
-- still be attempted.
pub record IsBounded (max : ℕ) (j : DeliveryJob) : Type 0 where
  pub bound : j.max_attempts ≡ max
  pub within : j.attempts ≤ max
  pub live : is_live j.status ≡ true → j.attempts < max

-- A queued job is a live job.
pub record IsQueued (max : ℕ) (j : DeliveryJob) : Type 0 where
  pub bound : j.max_attempts ≡ max
  pub below : j.attempts < max

pub All-job_at :
    (P : DeliveryJob → Type 0) (i : ℕ) (js : List DeliveryJob) {j : DeliveryJob}
    → All P js
    → job_at i js ≡ some j
    → P j
unfolding job_at
All-job_at P i [] h e = cc
All-job_at P zero (x ∷ js) {j = j} h e = let same : x ≡ j = cc in rw (sym same) h.0
All-job_at P (suc i) (x ∷ js) h e = All-job_at P i js h.1 e

pub All-remove_at :
    (P : DeliveryJob → Type 0) (i : ℕ) (js : List DeliveryJob) → All P js → All P (remove_at i js)
unfolding remove_at
All-remove_at P i [] h = tt
All-remove_at P zero (x ∷ js) h = h.1
All-remove_at P (suc i) (x ∷ js) h = (h.0, All-remove_at P i js h.1)

pub length-remove_at : (i : ℕ) (js : List DeliveryJob) → length (remove_at i js) ≤ length js
unfolding remove_at
length-remove_at i [] = omega arith
length-remove_at zero (x ∷ js) = omega arith
length-remove_at (suc i) (x ∷ js) = omega (arith, length-remove_at i js)

module _ (cfg : Config) where
  abbrev QueueValid : List DeliveryJob → Type 0
  QueueValid q = (length q ≤ capacity cfg) × All (IsQueued cfg.max_attempts) q

  pub offer-valid :
      (j : DeliveryJob) (q : List DeliveryJob)
      → IsQueued cfg.max_attempts j
      → QueueValid q
      → QueueValid (offer cfg j q)
  unfolding offer
  offer-valid j q h v = elim (Bool-cases (ltb (length q) (capacity cfg))) [
    | inl e ↦ rw e (ground (arith, length-append q (j ∷ [])), All-append _ q (j ∷ []) v.1 (h, tt))
    | inr e ↦ rw e v
  ]

-- What the sweeper lists from bounded jobs may be queued.
due-IsQueued :
    (max before : ℕ) (j : DeliveryJob) → IsBounded max j → is_due before j ≡ true → IsQueued max j
due-IsQueued max before j b d = record { bound = b.bound; below = b.live (ground arith) }

due-All :
    (max before : ℕ) (m : Map (String × String) DeliveryJob)
    → AllEntries (λ k j. IsBounded max j) m
    → All (IsQueued max) (select (is_due before) (values m))
due-All max before [] h = tt
due-All max before ((k, j) ∷ m) h = elim (Bool-cases (is_due before j)) [
  | inl e ↦ rw e (due-IsQueued max before j h.0 e, due-All max before m h.1)
  | inr e ↦ rw e (due-All max before m h.1)
]

pub pending-IsQueued :
    (max before limit : ℕ) (s : MemStore)
    → AllEntries (λ k j. IsBounded max j) s.delivery_jobs
    → All (IsQueued max) (list_pending_delivery_jobs before limit s)
unfolding list_pending_delivery_jobs
pending-IsQueued max before limit s h =
    let out = sort_by retry_le (select (is_due before) (values s.delivery_jobs)) in
    let all = All-sort_by retry_le (IsQueued max) _ (due-All max before s.delivery_jobs h) in
    elim (Bool-cases (ltb 0 limit && ltb limit (length out))) [
      | inl e ↦ rw e (All-take (IsQueued max) limit out all)
      | inr e ↦ rw e all
    ]

-- A written job has the bound, and is live only below it.
attempted-bounded :
    (max : ℕ) (w : Meets) (job : DeliveryJob) {j : DeliveryJob}
    → IsQueued max job
    → attempted_job w job ≡ some j
    → IsBounded max j
unfolding attempted_job
attempted-bounded max w job q e = ground arith

abbrev pub Stored : ℕ → MemStore → Type 0
Stored max s = AllEntries (λ k j. IsBounded max j) s.delivery_jobs

module _ (max : ℕ) (now : ℕ) (j : DeliveryJob) (b : IsBounded max j) (s : MemStore) where
  pub save-Stored : 0 < max → Stored max s → Stored max (save_delivery_job now j s)
  unfolding save_delivery_job
  save-Stored pos h = elim (Option-cases (get (job_key j) s.delivery_jobs)) [
    | inl e ↦ rw e (
        AllEntries-put (λ k j. IsBounded max j) (job_key j) (with_defaults now j) s.delivery_jobs
          (ground arith) h)
    | inr (a, e) ↦ rw e h
  ]

  update-Stored : Stored max s → Stored max (update_delivery_job now j s).0
  unfolding update_delivery_job
  update-Stored h = elim (Option-cases (get (job_key j) s.delivery_jobs)) [
    | inl e ↦ rw e h
    | inr (a, e) ↦ rw e (
        AllEntries-put (λ k j. IsBounded max j) (job_key j) (updated now j a) s.delivery_jobs
          (kept a (AllEntries-get (λ k j. IsBounded max j) (job_key j) s.delivery_jobs h e)) h)
  ]
    where
      kept : (a : DeliveryJob) → IsBounded max a → IsBounded max (updated now j a)
      kept a c = record { bound = c.bound; within = b.within; live = b.live }

pub attempt-Stored :
    (max : ℕ) (w : Meets) (job : DeliveryJob) (s : MemStore)
    → IsQueued max job
    → Stored max s
    → Stored max (attempt w job s)
unfolding attempt
attempt-Stored max w job s q h = elim (Option-cases (attempted_job w job)) [
  | inl e ↦ rw (e, attempt) h
  | inr (j, e) ↦
      rw (e, attempt) (update-Stored max w.updated_at j (attempted-bounded max w job q e) s h)
]

pub queued-IsBounded : (max : ℕ) (j : DeliveryJob) → IsQueued max j → IsBounded max j
queued-IsBounded max j q = record {
  bound = q.bound;
  within = omega (arith, q.below);
  live = λ l. q.below;
}
