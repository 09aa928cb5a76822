-- ===== src/Relay/Queue/Attempts.antt =====
-- Whatever the interleaving, the buffer and the workers stay within their bounds, and the backend is
-- called at most as often as the configuration allows for the jobs that were accepted.
use postbox.Common.{
  ℕ, suc, ◌+◌, ◌-◌, ◌*◌, ◌≤◌, ◌<◌, ◌≡◌, refl, Bool, true, false, ◌&&◌, ◌||◌, not, Option, none,
  some, List, [], ◌∷◌, ◌++◌, ltb, ok, err, arith, ap, length, length-append, All, All-append,
  Bool-cases, inl, inr,
}
use mathlib.Core.Path.{subst}
use postbox.Relay.Queue.Picking.{left, left-append, Below, IsPicked, pick-IsPicked}
use postbox.Relay.Queue.{
  QueueConfig, QueuedJob, RelayQueue, buf_size, new, enqueue, take_from, take_job, Outcome, aborted,
  sent, process, calls, requeue, pick, finish_picked, finish, stop, Event, enqueued, taken,
  finished, stop_called, step, run,
}

pub record IsValid (cfg : QueueConfig) (q : RelayQueue) : Type 0 where
  pub room : length q.jobs ≤ buf_size cfg
  pub busy : length q.held ≤ cfg.workers
  pub jobs_below : All (λ j. j.attempts < cfg.max_retries) q.jobs
  pub held_below : All (λ j. j.attempts < cfg.max_retries) q.held

-- The attempts that are left to all jobs of the queue.
abbrev pub remaining : QueueConfig → RelayQueue → ℕ
remaining cfg q = left cfg.max_retries q.jobs + left cfg.max_retries q.held

module _ (cfg : QueueConfig) where
  -- A queue after a step that accepted `a` jobs and called the backend `n` times.
  pub record IsStep (q q' : RelayQueue) (a n : ℕ) : Type 0 where
    pub valid : IsValid cfg q'
    pub paid : n + remaining cfg q' ≤ remaining cfg q + a * cfg.max_retries

  unchanged : (q : RelayQueue) → IsValid cfg q → IsStep q q 0 0
  unchanged q v = record { valid = v; paid = omega arith }

  pushed :
      (job : QueuedJob) (q : RelayQueue)
      → Below cfg job
      → length q.jobs < buf_size cfg
      → IsValid cfg q
      → IsValid cfg (record q { jobs = q.jobs ++ job ∷ [] })
  pushed job q b r v = record {
    room = omega (arith, length-append q.jobs (job ∷ []));
    busy = v.busy;
    jobs_below = All-append (Below cfg) q.jobs (job ∷ []) v.jobs_below (b, tt);
    held_below = v.held_below;
  }

  enqueue-IsStep :
      (ctx_done first : Bool) (job : QueuedJob) (q : RelayQueue)
      → 0 < cfg.max_retries
      → IsValid cfg q
      → let (q', r) = enqueue cfg ctx_done first job q in
        IsStep q q' (elim r [ ok x ↦ 1 | err e ↦ 0 ]) 0
  unfolding enqueue
  enqueue-IsStep ctx_done first job q pos v =
      let new_job : QueuedJob = record job { attempts = 0; next_retry = 0 } in
      elim (Bool-cases (ltb (length q.jobs) (buf_size cfg) && (not ctx_done || first))) [
        | inl e ↦ rw e (record {
          valid = pushed new_job q pos (ground arith) v;
          paid = omega (arith, left-append cfg.max_retries q.jobs (new_job ∷ []));
        })
        | inr e ↦ elim (Bool-cases ctx_done) [
          | inl c ↦ rw e (rw c (unchanged q v))
          | inr c ↦ rw e (rw c (unchanged q v))
        ]
      ]

  take_from-IsStep :
      (jobs : List QueuedJob) (q : RelayQueue)
      → q.jobs ≡ jobs
      → IsValid cfg q
      → IsStep q (take_from cfg jobs q) 0 0
  unfolding take_from
  take_from-IsStep [] q e v = unchanged q v
  take_from-IsStep (job ∷ rest) q e v =
      let below = subst (λ l. All (Below cfg) l) e v.jobs_below in
      let few : length q.jobs ≡ suc (length rest) = ap length e in
      let owed = ap (left cfg.max_retries) e in
      elim (Bool-cases (ltb (length q.held) cfg.workers)) [
        | inl f ↦ rw f (record {
          valid = record {
            room = omega (arith, v.room);
            busy = ground arith;
            jobs_below = below.1;
            held_below = (below.0, v.held_below);
          };
          paid = omega arith;
        })
        | inr f ↦ rw f (unchanged q v)
      ]

  -- A retry has one attempt more, was sent, and is below the bound.
  process-some :
      (o : Outcome) (job : QueuedJob) {j : QueuedJob}
      → process cfg o job ≡ some j
      → (calls o ≡ 1) × (j.attempts ≡ job.attempts + 1) × Below cfg j
  unfolding process
  process-some aborted job h = ground arith
  process-some (sent true now) job h = ground arith
  process-some (sent false now) job h = ground arith

  requeue-IsStep :
      (first : Bool) (job : QueuedJob) (q : RelayQueue)
      → Below cfg job
      → IsValid cfg q
      → IsValid cfg (requeue cfg first (some job) q)
        × (remaining cfg (requeue cfg first (some job) q)
            ≤ remaining cfg q + (cfg.max_retries - job.attempts))
  unfolding requeue
  requeue-IsStep first job q b v =
      elim (Bool-cases (ltb (length q.jobs) (buf_size cfg) && (not q.stopped || first))) [
        | inl e ↦ rw e (
          pushed job q b (ground arith) v,
          omega (arith, left-append cfg.max_retries q.jobs (job ∷ [])),
        )
        | inr e ↦ rw e (v, omega arith)
      ]

  without :
      (q : RelayQueue) (others : List QueuedJob)
      → length others ≤ cfg.workers
      → All (Below cfg) others
      → IsValid cfg q
      → IsValid cfg (record q { held = others })
  without q others n b v = record {
    room = v.room;
    busy = n;
    jobs_below = v.jobs_below;
    held_below = b;
  }

  calls-le : (o : Outcome) → calls o ≤ 1
  calls-le aborted = omega arith
  calls-le (sent r now) = omega arith

  finish_job :
      (o : Outcome) (first : Bool) (job : QueuedJob) (others : List QueuedJob) (q : RelayQueue)
      (retry : Option QueuedJob)
      → IsPicked cfg job others q.held
      → process cfg o job ≡ retry
      → IsValid cfg q
      → IsStep q (requeue cfg first retry (record q { held = others })) 0 (calls o)
  unfolding requeue
  finish_job o first job others q none p e v = record {
    valid = without q others (omega (arith, v.busy, p.shorter)) p.others_below v;
    paid = omega (arith, calls-le o, p.split, p.below);
  }
  finish_job o first job others q (some j) p e v =
      let r = process-some o job e in
      let w = without q others (omega (arith, v.busy, p.shorter)) p.others_below v in
      let s = requeue-IsStep first j (record q { held = others }) r.2 w in
      record { valid = s.0; paid = omega (arith, s.1, r.0, r.1, p.split, p.below) }

  finish_picked-IsStep :
      (o : Outcome) (first : Bool) (q : RelayQueue) (r : Option (QueuedJob × List QueuedJob))
      → ((job : QueuedJob) (others : List QueuedJob)
          → r ≡ some (job, others)
          → IsPicked cfg job others q.held)
      → IsValid cfg q
      → let (q', n) = finish_picked cfg o first r q in IsStep q q' 0 n
  unfolding finish_picked
  finish_picked-IsStep o first q none h v = unchanged q v
  finish_picked-IsStep o first q (some (job, others)) h v =
      finish_job o first job others q (process cfg o job) (h job others refl) refl v

  pub step-IsStep :
      (e : Event) (q : RelayQueue)
      → 0 < cfg.max_retries
      → IsValid cfg q
      → let (q', a, n) = step cfg e q in IsStep q q' a n
  unfolding step take_job finish stop
  step-IsStep (enqueued ctx_done first job) q pos v = enqueue-IsStep ctx_done first job q pos v
  step-IsStep taken q pos v = take_from-IsStep q.jobs q refl v
  step-IsStep (finished i o first) q pos v =
      finish_picked-IsStep o first q (pick i q.held)
        (λ job others. pick-IsPicked cfg i q.held job others v.held_below) v
  step-IsStep stop_called q pos v = record {
    valid = record {
      room = v.room;
      busy = v.busy;
      jobs_below = v.jobs_below;
      held_below = v.held_below;
    };
    paid = omega arith;
  }

  run-IsStep :
      (es : List Event) (q : RelayQueue)
      → 0 < cfg.max_retries
      → IsValid cfg q
      → let (q', a, n) = run cfg es q in IsStep q q' a n
  unfolding run
  run-IsStep [] q pos v = unchanged q v
  run-IsStep (e ∷ es) q pos v =
      let (q', a, n) = step cfg e q in
      let (q'', b, m) = run cfg es q' in
      let s = step-IsStep e q pos v in
      let t = run-IsStep es q' pos s.valid in
      record { valid = t.valid; paid = omega (arith, s.paid, t.paid) }

  new-IsValid : IsValid cfg new
  unfolding new
  new-IsValid = record { room = omega arith; busy = omega arith; jobs_below = tt; held_below = tt }

  -- With a positive bound on the attempts, whatever is sent to a new queue and in whatever order
  -- its workers run: the buffered jobs fit the buffer, at most as many jobs are held as there are
  -- workers, and every job that waits has an attempt left.
  pub run-QueueIsValid : (es : List Event) → 0 < cfg.max_retries → IsValid cfg (run cfg es new).0
  run-QueueIsValid es pos = (run-IsStep es new pos new-IsValid).valid

  -- With a positive bound on the attempts, whatever happens to a new queue: the calls of the
  -- backend, with the attempts that the waiting jobs have left, are never more than the bound for
  -- each job that was accepted.
  pub run-calls :
      (es : List Event)
      → 0 < cfg.max_retries
      → let (q', accepted, made) = run cfg es new in
        made + remaining cfg q' ≤ accepted * cfg.max_retries
  unfolding new
  run-calls es pos = omega (arith, (run-IsStep es new pos new-IsValid).paid)
