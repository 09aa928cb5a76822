-- ===== src/Relay/Queue/Drained.antt =====
-- A worker that drains the buffer comes to its end.
use postbox.Common.{
  ℕ, zero, suc, ◌+◌, ◌-◌, ◌*◌, ◌≤◌, ◌<◌, ◌≡◌, refl, Bool, true, false, Option, none, some, List, [],
  ◌∷◌, ltb, arith, ap, ◌∙◌, sym, length, All,
}
use mathlib.Core.Path.{subst}
use postbox.Relay.Queue.{
  QueueConfig, QueuedJob, RelayQueue, new, take_from, take_job, Outcome, aborted, sent, process,
  requeue, pick, finish_picked, finish, Event, taken, finished, step, run, round, drain,
}
use postbox.Relay.Queue.Picking.{left, left-append, Below}
use postbox.Relay.Queue.Attempts.{IsValid, step-IsStep, run-QueueIsValid}

module _ (cfg : QueueConfig) where
  -- The attempts that a job to be retried has left.
  due : Option QueuedJob → ℕ
  due none = 0
  due (some j) = cfg.max_retries - j.attempts

  due-process :
      (o : Outcome) (job : QueuedJob)
      → Below cfg job
      → due (process cfg o job) < cfg.max_retries - job.attempts
  unfolding due process
  due-process aborted job b = omega arith
  due-process (sent true now) job b = omega arith
  due-process (sent false now) job b = ground arith

  left-requeue :
      (first : Bool) (r : Option QueuedJob) (q : RelayQueue)
      → (left cfg.max_retries (requeue cfg first r q).jobs ≤ left cfg.max_retries q.jobs + due r)
        × ((requeue cfg first r q).held ≡ q.held)
  unfolding requeue due
  left-requeue first none q = (omega arith, refl)
  left-requeue first (some job) q = ground (arith, left-append cfg.max_retries q.jobs (job ∷ []))

  left-round :
      (o : Outcome) (first : Bool) (job : QueuedJob) (jobs : List QueuedJob) (q : RelayQueue)
      → Below cfg job
      → length q.held < cfg.workers
      → let q' = (finish cfg 0 o first (take_from cfg (job ∷ jobs) q)).0 in
        (left cfg.max_retries q'.jobs < left cfg.max_retries (job ∷ jobs)) × (q'.held ≡ q.held)
  unfolding finish finish_picked take_from pick
  left-round o first job jobs q b free =
      let e : ltb (length q.held) cfg.workers ≡ true = ground arith in
      let r = left-requeue first (process cfg o job) (record q { jobs = jobs }) in
      rw e (omega (arith, r.0, due-process o job b), r.1)

  left-le : (js : List QueuedJob) → left cfg.max_retries js ≤ length js * cfg.max_retries
  left-le [] = omega arith
  left-le (j ∷ js) = omega (arith, left-le js)

  round-IsValid :
      (o : Outcome) (first : Bool) (q : RelayQueue)
      → 0 < cfg.max_retries
      → IsValid cfg q
      → IsValid cfg (finish cfg 0 o first (take_job cfg q)).0
  unfolding step
  round-IsValid o first q pos v =
      (step-IsStep cfg (finished 0 o first) (take_job cfg q) pos
        (step-IsStep cfg taken q pos v).valid).valid

  -- A round with a buffered job.
  round-left :
      (o : Outcome) (first : Bool) (job : QueuedJob) (jobs : List QueuedJob) (q : RelayQueue)
      → q.jobs ≡ job ∷ jobs
      → IsValid cfg q
      → length q.held < cfg.workers
      → let q' = (finish cfg 0 o first (take_job cfg q)).0 in
        (left cfg.max_retries q'.jobs < left cfg.max_retries q.jobs) × (q'.held ≡ q.held)
  unfolding take_job
  round-left o first job jobs q e v free =
      let below = subst (λ l. All (Below cfg) l) e v.jobs_below in
      subst
        (λ l.
          let q' = (finish cfg 0 o first (take_from cfg l q)).0 in
          (left cfg.max_retries q'.jobs < left cfg.max_retries l) × (q'.held ≡ q.held))
        (sym e) (left-round o first job jobs q below.0 free)

  module _ (meets : ℕ → Outcome × Bool) where
    drain-empty : (n : ℕ) (q : RelayQueue) → q.jobs ≡ [] → drain cfg meets n q ≡ q
    unfolding drain
    drain-empty zero q h = refl
    drain-empty (suc n) q h =
        ap (λ l. drain cfg meets n (round cfg (meets n) l q)) h ∙ drain-empty n q h

    none-left : (js : List QueuedJob) → All (Below cfg) js → left cfg.max_retries js ≤ 0 → js ≡ []
    none-left [] b h = refl
    none-left (j ∷ js) b h = absurd (omega (arith, b.0))

    Drained : RelayQueue → RelayQueue → Type 0
    Drained q q' = (q'.jobs ≡ []) × (q'.held ≡ q.held)

    drain-Drained :
        (n : ℕ) (q : RelayQueue)
        → 0 < cfg.max_retries
        → IsValid cfg q
        → length q.held < cfg.workers
        → left cfg.max_retries q.jobs ≤ n
        → Drained q (drain cfg meets n q)
    unfolding drain Drained
    drain-Drained zero q pos v free le = (none-left q.jobs v.jobs_below le, refl)
    drain-Drained (suc n) q pos v free le = next (drain-Drained n) q.jobs refl
      where
        next :
            ((p : RelayQueue)
              → 0 < cfg.max_retries
              → IsValid cfg p
              → length p.held < cfg.workers
              → left cfg.max_retries p.jobs ≤ n
              → Drained p (drain cfg meets n p))
            → (l : List QueuedJob) → q.jobs ≡ l
            → Drained q (drain cfg meets (suc n) q)
        next ih [] e = let p = drain-empty (suc n) q e in subst (Drained q) (sym p) (e, refl)
        next ih (job ∷ jobs) e =
            let o = (meets n).0 in
            let first = (meets n).1 in
            let q' = (finish cfg 0 o first (take_job cfg q)).0 in
            let r = round-left o first job jobs q e v free in
            let same : drain cfg meets (suc n) q ≡ drain cfg meets n q' =
              ap (λ l. drain cfg meets n (round cfg (meets n) l q)) e in
            let d =
              ih q' pos (round-IsValid o first q pos v)
                (omega (arith, free, ap (λ (h : List QueuedJob). length h) r.1))
                (omega (arith, r.0)) in
            subst (Drained q) (sym same) (d.0, d.1 ∙ r.1)

  -- With a positive bound on the attempts, after whatever happened to a new queue: a free worker that
  -- drains the buffer while nothing else happens to the queue comes to its end. Whatever its rounds meet,
  -- the backend's answers and the choices between a retry and the stop included, the buffer is empty
  -- after as many rounds as the bound allows for the buffered jobs, and the jobs that other workers hold
  -- are as they were.
  pub drain-run :
      (es : List Event) (meets : ℕ → Outcome × Bool) (n : ℕ)
      → let q = (run cfg es new).0 in
        0 < cfg.max_retries
        → length q.held < cfg.workers
        → length q.jobs * cfg.max_retries ≤ n
        → ((drain cfg meets n q).jobs ≡ []) × ((drain cfg meets n q).held ≡ q.held)
  unfolding Drained
  drain-run es meets n pos free le =
      let q = (run cfg es new).0 in
      drain-Drained meets n q pos (run-QueueIsValid cfg es pos) free
        (omega (arith, left-le q.jobs, le))
