-- ===== src/Webhook/Dispatcher.antt =====
-- internal/webhook/dispatcher.go: a received message becomes a delivery job in the store and in a
-- bounded queue; workers post the jobs; a sweeper queues again what is due. The goroutines are an
-- interleaving of the steps below: a step makes at most one call of the store, which locks for the
-- call, or one send or receive on the channel, and what a goroutine holds between two of its steps
-- is part of the state. What the mailbox and the HTTP client answer is an argument.
pub mod Bounds
pub mod Jobs
pub mod Outcomes
use postbox.Common.{
  ℕ, zero, suc, ◌+◌, ◌*◌, String, Bool, true, false, ◌&&◌, ◌||◌, Option, none, some, List, [], ◌∷◌,
  ◌++◌, string_Eq, ◌==◌, ltb, leb, if◌then◌else◌, Result, ok, err, length,
}
use postbox.Store.{
  User, DeliveryJob, DeliveryStatus, pending, delivered, failed, dead, Error, not_found, invalid,
  read,
}
use postbox.MemStore.{
  MemStore, get_user, save_delivery_job, update_delivery_job, list_pending_delivery_jobs,
}
use postbox.Webhook.Retry.{next_retry_at, is_permanent_failure}

pub record Config : Type 0 where
  pub workers : ℕ
  pub max_attempts : ℕ

-- The store, the buffered channel, oldest job first, and what the goroutines hold: the jobs that
-- handlers of events have made and not yet saved, the jobs that they have saved and not yet sent, the
-- jobs at which workers are busy, and the rest of what the sweeper has listed.
pub record Dispatcher : Type 0 where
  pub store : MemStore
  pub queue : List DeliveryJob
  pub made : List DeliveryJob
  pub saved : List DeliveryJob
  pub busy : List DeliveryJob
  pub listed : List DeliveryJob

abbrev pub capacity : Config → ℕ
capacity cfg = cfg.workers * 10

-- A send on the channel with a `default` case: a job for which there is no room is dropped.
unfoldable pub offer : Config → DeliveryJob → List DeliveryJob → List DeliveryJob
offer cfg job queue = if ltb (length queue) (capacity cfg) then queue ++ job ∷ [] else queue

-- The job that `onMessageReceived` makes.
abbrev pub new_job : Config → ℕ → String → String → String → DeliveryJob
new_job cfg now message_id recipient_id endpoint = record {
  message_id = message_id;
  recipient_id = recipient_id;
  endpoint_url = endpoint;
  status = pending;
  attempts = 0;
  max_attempts = cfg.max_attempts;
  last_error = "";
  next_retry_at = now;
  delivered_at = none;
  created_at = now;
  updated_at = 0;
}

-- The job for a user that is found, if it has an endpoint.
job_for : Config → ℕ → String → String → User → Option DeliveryJob
job_for cfg now message_id recipient_id user =
    let endpoint = read "endpoint" user.metadata in
    if endpoint == "" then none else some (new_job cfg now message_id recipient_id endpoint)

on_resolved : Config → ℕ → String → String → Result Error User → Result Error (Option DeliveryJob)
unfolding job_for
on_resolved cfg now message_id recipient_id (ok user) =
    ok (job_for cfg now message_id recipient_id user)
on_resolved cfg now message_id recipient_id (err not_found) = ok none
on_resolved cfg now message_id recipient_id (err e) = err e

-- `onMessageReceived` up to the save, where users are resolved in the store: the job that it will
-- save, none where it returns with nothing to do, or its error.
unfoldable pub on_message_received :
    Config → ℕ → String → String → MemStore → Result Error (Option DeliveryJob)
unfolding on_resolved
on_message_received cfg now message_id recipient_id s =
    on_resolved cfg now message_id recipient_id (get_user recipient_id s)

-- `client.Do`: an error with its text, or a status code.
pub data Response : Type 0 where
  no_response : String → Response
  status : ℕ → Response

-- What one attempt meets: whether the message was fetched and its payload encoded, the error of
-- building the request if there is one, the response, the times read, and the random number of the
-- jitter. `status_text` is the text of a status code.
pub record Meets : Type 0 where
  pub fetched : Bool
  pub encoded : Bool
  pub build_error : Option String
  pub response : Response
  pub done_at : ℕ
  pub retry_from : ℕ
  pub updated_at : ℕ
  pub random : ℕ
  pub status_text : ℕ → String

-- `fail`: the job that is written back.
unfoldable pub failed_job : Meets → DeliveryJob → String → Bool → DeliveryJob
failed_job w job err_msg permanent =
    if permanent || leb job.max_attempts job.attempts
    then record job { last_error = err_msg; status = dead }
    else record job {
      last_error = err_msg;
      status = failed;
      next_retry_at = next_retry_at w.retry_from w.random job.attempts;
    }

-- The job that an attempt with this response writes back; `job` has the attempt counted.
unfoldable pub answered_job : Meets → DeliveryJob → Response → DeliveryJob
unfolding failed_job
answered_job w job (no_response e) = failed_job w job e false
answered_job w job (status code) =
    if leb 200 code && ltb code 300
    then record job { status = delivered; delivered_at = some w.done_at; last_error = "" }
    else failed_job w job (w.status_text code) (is_permanent_failure code)

-- The job that an attempt writes back; `none` where it returns before it writes.
unfoldable pub attempted_job : Meets → DeliveryJob → Option DeliveryJob
unfolding answered_job failed_job
attempted_job w job =
    if w.fetched && w.encoded
    then elim w.build_error [
      | some e ↦ some (failed_job w job e false)
      | none ↦ some (answered_job w (record job { attempts = job.attempts + 1 }) w.response)
    ]
    else none

-- `attempt`. The error of the update is only logged.
unfoldable pub attempt : Meets → DeliveryJob → MemStore → MemStore
attempt w job s = elim (attempted_job w job) [
  | none ↦ s
  | some j ↦ (update_delivery_job w.updated_at j s).0
]

-- A handler that goes on to save its job.
begin_save : Result Error (Option DeliveryJob) → Dispatcher → Dispatcher
begin_save (ok (some job)) d = record d { made = job ∷ d.made }
begin_save _ d = d

-- The job at a position, and the other jobs.
unfoldable pub job_at : ℕ → List DeliveryJob → Option DeliveryJob
job_at i [] = none
job_at zero (j ∷ js) = some j
job_at (suc i) (j ∷ js) = job_at i js

unfoldable pub remove_at : ℕ → List DeliveryJob → List DeliveryJob
remove_at i [] = []
remove_at zero (j ∷ js) = js
remove_at (suc i) (j ∷ js) = j ∷ remove_at i js

abbrev pub at_job : ℕ → List DeliveryJob → (DeliveryJob → Dispatcher) → Dispatcher → Dispatcher
at_job i js f d = elim (job_at i js) [ none ↦ d | some job ↦ f job ]

abbrev pub at_first :
    List DeliveryJob → (DeliveryJob → List DeliveryJob → Dispatcher) → Dispatcher → Dispatcher
at_first [] f d = d
at_first (job ∷ rest) f d = f job rest

-- A handler saves the job at a position.
abbrev pub after_save : ℕ → ℕ → Dispatcher → DeliveryJob → Dispatcher
after_save now i d job = record d {
  store = save_delivery_job now job d.store;
  made = remove_at i d.made;
  saved = job ∷ d.saved;
}

-- A handler sends its saved job on the channel.
abbrev pub after_send : Config → ℕ → Dispatcher → DeliveryJob → Dispatcher
after_send cfg i d job = record d { queue = offer cfg job d.queue; saved = remove_at i d.saved }

-- An idle worker receives the oldest job.
abbrev pub after_take : Config → Dispatcher → DeliveryJob → List DeliveryJob → Dispatcher
after_take cfg d job rest =
    if ltb (length d.busy) cfg.workers then record d { queue = rest; busy = job ∷ d.busy } else d

-- A worker ends its attempt: what the attempt met decides what it writes to the store.
abbrev pub after_attempt : Meets → ℕ → Dispatcher → DeliveryJob → Dispatcher
after_attempt w i d job = record d { store = attempt w job d.store; busy = remove_at i d.busy }

-- The sweeper sends the next job of its listing.
abbrev pub after_offer : Config → Dispatcher → DeliveryJob → List DeliveryJob → Dispatcher
after_offer cfg d job rest = record d { queue = offer cfg job d.queue; listed = rest }

-- A tick of the sweeper, which takes a tick only when it has been through its last listing.
unfoldable pub sweep : Config → ℕ → Dispatcher → Dispatcher
sweep cfg now d =
    at_first d.listed (λ job rest. d)
      (record d { listed = list_pending_delivery_jobs now (capacity cfg) d.store })

pub data Event : Type 0 where
  received : ℕ → String → String → Event
  saves : ℕ → ℕ → Event
  sends : ℕ → Event
  takes : Event
  ends : Meets → ℕ → Event
  ticks : ℕ → Event
  sweeps : Event

-- One step of a goroutine, and any interleaving of steps.
unfoldable pub step : Config → Event → Dispatcher → Dispatcher
unfolding begin_save
step cfg (received now message_id recipient_id) d =
    begin_save (on_message_received cfg now message_id recipient_id d.store) d
step cfg (saves now i) d = at_job i d.made (after_save now i d) d
step cfg (sends i) d = at_job i d.saved (after_send cfg i d) d
step cfg takes d = at_first d.queue (after_take cfg d) d
step cfg (ends w i) d = at_job i d.busy (after_attempt w i d) d
step cfg (ticks now) d = sweep cfg now d
step cfg sweeps d = at_first d.listed (after_offer cfg d) d

unfoldable pub run : Config → List Event → Dispatcher → Dispatcher
run cfg [] d = d
run cfg (e ∷ es) d = run cfg es (step cfg e d)
