-- ===== src/Webhook/Dispatcher/Outcomes.antt =====
-- What one attempt leaves in the store, and when the sweeper comes back to a job.
use postbox.Common.{
  ℕ, ◌+◌, ◌*◌, ◌/◌, ◌≤◌, ◌<◌, ◌≡◌, String, Bool, true, false, ◌&&◌, ◌||◌, not, Option, none, some,
  nat_Eq, string_Eq, pair_Eq, pair_beq_iff, ◌==◌, ltb, leb, if◌then◌else◌, arith,
}
use postbox.Common.Map.{get, get-put}
use postbox.Store.{DeliveryJob, DeliveryStatus, delivered, failed, dead}
use postbox.MemStore.{MemStore, update_delivery_job, is_due, job_key, updated}
use postbox.Webhook.Retry.{retry_delay, next_retry_at_bounds, is_permanent_failure, unit_float}
use postbox.Webhook.Dispatcher.{
  Meets, Response, no_response, status, attempted_job, answered_job, attempt,
}

-- The attempt gets as far as posting the request.
abbrev pub Posted : Meets → Type 0
Posted w = (w.fetched ≡ true) × (w.encoded ≡ true) × (w.build_error ≡ none)

abbrev pub is_success : Response → Bool
is_success (no_response e) = false
is_success (status code) = leb 200 code && ltb code 300

-- A client error other than 429.
abbrev pub is_client_error : Response → Bool
is_client_error (no_response e) = false
is_client_error (status code) = leb 400 code && ltb code 500 && not (code == 429)

-- The state of a job with bound `max` after its attempt number `n` is answered.
abbrev pub next_status : Response → ℕ → ℕ → DeliveryStatus
next_status r n max =
    if is_success r then delivered else if is_client_error r || leb max n then dead else failed

abbrev pub status_at : String × String → MemStore → Option DeliveryStatus
status_at k s = elim (get k s.delivery_jobs) [ none ↦ none | some j ↦ some j.status ]

abbrev pub attempts_at : String × String → MemStore → Option ℕ
attempts_at k s = elim (get k s.delivery_jobs) [ none ↦ none | some j ↦ some j.attempts ]

get-update :
    (k : String × String) (now : ℕ) (j a : DeliveryJob) (s : MemStore)
    → get k s.delivery_jobs ≡ some a
    → job_key j ≡ k
    → get k (update_delivery_job now j s).0.delivery_jobs ≡ some (updated now j a)
unfolding update_delivery_job
get-update k now j a s h e =
    ground
      (arith, pair_beq_iff (job_key j) k, get-put (job_key j) k (updated now j a) s.delivery_jobs)

get-attempt :
    (k : String × String) (w : Meets) (job j a : DeliveryJob) (s : MemStore)
    → get k s.delivery_jobs ≡ some a
    → attempted_job w job ≡ some j
    → job_key j ≡ k
    → get k (attempt w job s).delivery_jobs ≡ some (updated w.updated_at j a)
unfolding attempt
get-attempt k w job j a s h e f = rw (e, attempt) (get-update k w.updated_at j a s h f)

-- The job that a posted attempt writes.
abbrev answered : Meets → DeliveryJob → DeliveryJob
answered w job = answered_job w (record job { attempts = job.attempts + 1 }) w.response

answered_parts :
    (w : Meets) (job : DeliveryJob)
    → (job_key (answered w job) ≡ job_key job)
      × ((answered w job).status ≡ next_status w.response (job.attempts + 1) job.max_attempts)
      × ((answered w job).attempts ≡ job.attempts + 1)
unfolding answered_job is_permanent_failure
answered_parts w job = ground arith

attempted-answered :
    (w : Meets) (job : DeliveryJob) → Posted w → attempted_job w job ≡ some (answered w job)
unfolding attempted_job
attempted-answered w job p = ground arith

module _ (w : Meets) (job a : DeliveryJob) (s : MemStore) (posted : Posted w)
    (stored : get (job_key job) s.delivery_jobs ≡ some a) where
  written :
      get (job_key job) (attempt w job s).delivery_jobs
      ≡ some (updated w.updated_at (answered w job) a)
  written =
      get-attempt (job_key job) w job (answered w job) a s stored (attempted-answered w job posted)
        (answered_parts w job).0

  -- After a posted attempt at a job that is in the store, the stored job has one attempt more than
  -- the queued copy, and its state is that of the response: delivered for 2xx, dead for a client
  -- error other than 429 or when the bound is reached, and failed otherwise.
  pub attempt-next_status :
      (status_at (job_key job) (attempt w job s)
        ≡ some (next_status w.response (job.attempts + 1) job.max_attempts))
      × (attempts_at (job_key job) (attempt w job s) ≡ some (job.attempts + 1))
  attempt-next_status = ground (arith, written, answered_parts w job)

  -- A job of the store that a posted attempt leaves failed is not due again before four fifths of
  -- the delay for its attempts have passed.
  pub attempt-not_due :
      (before : ℕ) (j : DeliveryJob)
      → w.random < unit_float
      → get (job_key job) (attempt w job s).delivery_jobs ≡ some j
      → j.status ≡ failed
      → is_due before j ≡ true
      → w.retry_from + 4 * retry_delay (job.attempts + 1) / 5 ≤ before
  unfolding answered_job
  attempt-not_due before j r g f d = ground (
    arith,
    written,
    next_retry_at_bounds w.retry_from w.random (job.attempts + 1),
    answered_parts w job,
  )
