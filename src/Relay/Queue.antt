-- ===== src/Relay/Queue.antt =====
-- internal/relay/queue.go: the delivery queue of the relay, with retries. Workers are an interleaving
-- of two steps, taking a job from the channel and finishing it; what the backend answers and which
-- ready case a `select` picks are arguments. A negative setting counts as 0: the source treats all
-- that is not positive alike.
pub mod Backoff
pub mod Picking
pub mod Attempts
pub mod Drained
use postbox.Common.{
  ℕ, zero, suc, ◌+◌, ◌-◌, ◌*◌, ◌%◌, ◌^◌, String, Bool, true, false, ◌&&◌, ◌||◌, not, Option, none,
  some, List, [], ◌∷◌, ◌++◌, nat_Eq, ◌==◌, ltb, leb, if◌then◌else◌, Result, ok, err, length,
}
use postbox.Common.Map.{Map}

pub record QueueConfig : Type 0 where
  pub workers : ℕ
  pub max_retries : ℕ
  pub base_delay : ℕ
  pub max_delay : ℕ

abbrev pub second : ℕ
second = 1_000_000_000

abbrev or_default : ℕ → ℕ → ℕ
or_default n d = if n == 0 then d else n

-- The settings with which `NewRelayQueue` starts the queue.
unfoldable pub with_defaults : QueueConfig → QueueConfig
with_defaults cfg = record {
  workers = or_default cfg.workers 4;
  max_retries = or_default cfg.max_retries 7;
  base_delay = or_default cfg.base_delay (5 * second);
  max_delay = or_default cfg.max_delay (4 * 3600 * second);
}

-- The size of the channel's buffer.
unfoldable pub buf_size : QueueConfig → ℕ
buf_size cfg = let n = cfg.workers * 8 in if ltb n 64 then 64 else n

pub record QueuedJob : Type 0 where
  pub sender : String
  pub recipients : List String
  pub subject : String
  pub body : String
  pub headers : Map String String
  pub attempts : ℕ
  pub next_retry : ℕ

-- The buffered jobs, the jobs that workers hold, and whether `stopCh` is closed.
pub record RelayQueue : Type 0 where
  pub jobs : List QueuedJob
  pub held : List QueuedJob
  pub stopped : Bool

unfoldable pub new : RelayQueue
new = record { jobs = []; held = []; stopped = false }

-- The bits of `base << k` in an int64.
unfoldable pub shift_left : ℕ → ℕ → ℕ
shift_left base k = base * 2 ^ k % 2 ^ 64

-- The delay after the given number of attempts: a value from `2 ^ 63` on is a negative int64.
unfoldable pub backoff : QueueConfig → ℕ → ℕ
unfolding shift_left
backoff cfg attempts =
    let delay = shift_left cfg.base_delay (attempts - 1) in
    if ltb cfg.max_delay delay || leb (2 ^ 63) delay || delay == 0 then cfg.max_delay else delay

pub data EnqueueError : Type 0 where
  cancelled queue_full : EnqueueError

-- `Enqueue`: `ctx_done` tells whether the context has ended, and `first` which case is taken where
-- both the channel and the context are ready. The attempts of a new job are 0.
unfoldable pub enqueue :
    QueueConfig → Bool → Bool → QueuedJob → RelayQueue → RelayQueue × Result EnqueueError (Unit {0})
enqueue cfg ctx_done first job q =
    if ltb (length q.jobs) (buf_size cfg) && (not ctx_done || first)
    then (record q { jobs = q.jobs ++ record job { attempts = 0; next_retry = 0 } ∷ [] }, ok tt)
    else (q, if ctx_done then err cancelled else err queue_full)

-- A free worker takes the oldest job.
take_from : QueueConfig → List QueuedJob → RelayQueue → RelayQueue
take_from cfg [] q = q
take_from cfg (job ∷ rest) q =
    if ltb (length q.held) cfg.workers then record q { jobs = rest; held = job ∷ q.held } else q

unfoldable pub take_job : QueueConfig → RelayQueue → RelayQueue
unfolding take_from
take_job cfg q = take_from cfg q.jobs q

-- What `process` meets: the context ends while it waits for the retry time; or the backend is called,
-- at a time, with a result.
pub data Outcome : Type 0 where
  aborted : Outcome
  sent : Bool → ℕ → Outcome

-- The job that `process` offers for a retry; `none` where it was delivered, given up or aborted.
unfoldable pub process : QueueConfig → Outcome → QueuedJob → Option QueuedJob
process cfg aborted job = none
process cfg (sent true now) job = none
process cfg (sent false now) job =
    let n = job.attempts + 1 in
    if leb cfg.max_retries n
    then none
    else some (record job { attempts = n; next_retry = now + backoff cfg n })

-- The calls of the backend.
abbrev pub calls : Outcome → ℕ
calls aborted = 0
calls (sent r now) = 1

-- The last `select` of `process`: `first` picks the channel where `stopCh` is ready too.
unfoldable pub requeue : QueueConfig → Bool → Option QueuedJob → RelayQueue → RelayQueue
requeue cfg first none q = q
requeue cfg first (some job) q =
    if ltb (length q.jobs) (buf_size cfg) && (not q.stopped || first)
    then record q { jobs = q.jobs ++ job ∷ [] }
    else q

put_back : QueuedJob → Option (QueuedJob × List QueuedJob) → Option (QueuedJob × List QueuedJob)
put_back job none = none
put_back job (some (j, others)) = some (j, job ∷ others)

-- The held job at a position, and the others.
unfoldable pub pick : ℕ → List QueuedJob → Option (QueuedJob × List QueuedJob)
unfolding put_back
pick i [] = none
pick zero (job ∷ rest) = some (job, rest)
pick (suc i) (job ∷ rest) = put_back job (pick i rest)

-- A worker finishes the job that it holds; the second result is the number of calls of the backend.
finish_picked :
    QueueConfig → Outcome → Bool → Option (QueuedJob × List QueuedJob) → RelayQueue → RelayQueue × ℕ
finish_picked cfg o first none q = (q, 0)
finish_picked cfg o first (some (job, others)) q =
    (requeue cfg first (process cfg o job) (record q { held = others }), calls o)

unfoldable pub finish : QueueConfig → ℕ → Outcome → Bool → RelayQueue → RelayQueue × ℕ
unfolding finish_picked
finish cfg i o first q = finish_picked cfg o first (pick i q.held) q

-- `Stop` closes `stopCh`.
unfoldable pub stop : RelayQueue → RelayQueue
stop q = record q { stopped = true }

-- The rounds of a worker that drains the buffer once `stopCh` is closed: `meets` has what each round meets.
-- A round with an empty buffer changes nothing: there the worker returns.
abbrev pub round : QueueConfig → Outcome × Bool → List QueuedJob → RelayQueue → RelayQueue
round cfg (o, first) [] q = q
round cfg (o, first) (job ∷ jobs) q = (finish cfg 0 o first (take_job cfg q)).0

unfoldable pub drain : QueueConfig → (ℕ → Outcome × Bool) → ℕ → RelayQueue → RelayQueue
unfolding take_job finish
drain cfg meets zero q = q
drain cfg meets (suc n) q = drain cfg meets n (round cfg (meets n) q.jobs q)

pub data Event : Type 0 where
  enqueued : Bool → Bool → QueuedJob → Event
  taken : Event
  finished : ℕ → Outcome → Bool → Event
  stop_called : Event

-- One step: the queue, the jobs accepted and the calls of the backend in it.
unfoldable pub step : QueueConfig → Event → RelayQueue → RelayQueue × ℕ × ℕ
step cfg (enqueued ctx_done first job) q =
    let (q', r) = enqueue cfg ctx_done first job q in (q', elim r [ ok x ↦ 1 | err e ↦ 0 ], 0)
step cfg taken q = (take_job cfg q, 0, 0)
step cfg (finished i o first) q = let (q', n) = finish cfg i o first q in (q', 0, n)
step cfg stop_called q = (stop q, 0, 0)

-- Any interleaving: the queue after it, the jobs that were accepted, and the calls of the backend.
unfoldable pub run : QueueConfig → List Event → RelayQueue → RelayQueue × ℕ × ℕ
run cfg [] q = (q, 0, 0)
run cfg (e ∷ es) q =
    let (q', a, n) = step cfg e q in let (q'', b, m) = run cfg es q' in (q'', a + b, n + m)
