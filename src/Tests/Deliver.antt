-- ===== src/Tests/Deliver.antt =====
-- The theorems on deliveries, on the job of the history, and on a relay with one worker.
use postbox.Common.{true, ◌≡◌, refl, none, some, List, [], ◌∷◌, string_Eq, pair_Eq, nat_Eq, arith}
use postbox.Common.Map.{get, put}
use postbox.Store.{DeliveryJob, failed}
use postbox.MemStore.{new, job_key, save_domain, save_node, save_user, save_delivery_job}
use postbox.MemStore.Trace.{writes, write}
use postbox.Webhook.Retry.{next_retry_at}
use postbox.Webhook.Dispatcher.{
  Config, Dispatcher, Meets, status, Event, received, saves, sends, takes, ends, ticks, sweeps,
  attempt, run,
}
use postbox.Webhook.Dispatcher.Bounds.{IsValid, run-IsValid}
use postbox.Webhook.Dispatcher.Outcomes.{status_at, attempts_at, attempt-next_status}
use postbox.Tests.{job, stored}

abbrev cfg : Config
cfg = record { workers = 1; max_attempts = 2 }

-- A server error, met by a request that is sent.
abbrev down : Meets
down = record {
  fetched = true;
  encoded = true;
  build_error = none;
  response = status 503;
  done_at = 20;
  retry_from = 20;
  updated_at = 20;
  random = 7;
  status_text = λ code. "HTTP";
}

-- A message that is saved and sent, two failed attempts with a tick of the sweeper between them, and
-- a tick while the second attempt is under way.
abbrev events : List Event
events =
    received 10 "m1" "ann@home.test"
    ∷ saves 11 0
    ∷ sends 0
    ∷ takes
    ∷ ends down 0
    ∷ ticks 40_000_000_000
    ∷ sweeps
    ∷ takes
    ∷ ticks 40_000_000_001
    ∷ ends down 0
    ∷ sweeps
    ∷ []

abbrev idle : Dispatcher
idle = record {
  store = record new { users = stored.users };
  queue = [];
  made = [];
  saved = [];
  busy = [];
  listed = [];
}

dispatcher_example : IsValid cfg (run cfg events idle)
unfolding new
dispatcher_example = run-IsValid cfg (omega arith) events idle (record {
  room = omega arith;
  queued = tt;
  made = tt;
  saved = tt;
  busy = tt;
  listed = tt;
  idle = omega arith;
  stored = tt;
})

next_status_example :
    (status_at (job_key job) (attempt down job stored) ≡ some failed)
    × (attempts_at (job_key job) (attempt down job stored) ≡ some 1)
unfolding writes write save_user get save_delivery_job save_domain save_node new put
next_status_example = attempt-next_status down job job stored (refl, refl, refl) refl

-- The job after one failed attempt at the time 20.
abbrev retried : DeliveryJob
retried = record job {
  status = failed;
  attempts = 1;
  last_error = "HTTP";
  next_retry_at = next_retry_at 20 7 1;
  updated_at = 20;
}
