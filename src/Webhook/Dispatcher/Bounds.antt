-- ===== src/Webhook/Dispatcher/Bounds.antt =====
-- What holds of the dispatcher after any interleaving: the queue is bounded, and no job is attempted
-- more often than the configuration allows.
use postbox.Common.{
  ℕ, suc, ap, ◌≤◌, ◌<◌, ◌≡◌, refl, String, List, [], ◌∷◌, string_Eq, pair_Eq, ◌==◌, ltb, Result, ok,
  err, arith, length, All, inl, inr, Bool-cases, Option-cases,
}
use postbox.Common.Map.{AllEntries}
use postbox.Store.{DeliveryJob, User, Error, not_found, read}
use postbox.MemStore.{get_user, list_pending_delivery_jobs}
use postbox.Webhook.Dispatcher.{
  Config, Dispatcher, Event, received, saves, sends, takes, ends, ticks, sweeps, Meets, capacity,
  job_for, on_message_received, on_resolved, begin_save, job_at, at_job, at_first, after_save,
  after_send, after_take, after_attempt, after_offer, sweep, step, run,
}
use postbox.Webhook.Dispatcher.Jobs.{
  IsQueued, IsBounded, All-job_at, All-remove_at, length-remove_at, offer-valid, pending-IsQueued,
  save-Stored, attempt-Stored, queued-IsBounded,
}

pub record IsValid (cfg : Config) (d : Dispatcher) : Type 0 where
  pub room : length d.queue ≤ capacity cfg
  pub queued : All (IsQueued cfg.max_attempts) d.queue
  pub made : All (IsQueued cfg.max_attempts) d.made
  pub saved : All (IsQueued cfg.max_attempts) d.saved
  pub busy : All (IsQueued cfg.max_attempts) d.busy
  pub listed : All (IsQueued cfg.max_attempts) d.listed
  pub idle : length d.busy ≤ cfg.workers
  pub stored : AllEntries (λ k j. IsBounded cfg.max_attempts j) d.store.delivery_jobs

module _ (cfg : Config) (pos : 0 < cfg.max_attempts) where
  at_job-IsValid :
      (f : DeliveryJob → Dispatcher) (i : ℕ) (js : List DeliveryJob) (d : Dispatcher)
      → All (IsQueued cfg.max_attempts) js
      → IsValid cfg d
      → ((j : DeliveryJob) → IsQueued cfg.max_attempts j → IsValid cfg (f j))
      → IsValid cfg (at_job i js f d)
  at_job-IsValid f i js d q v h = elim (Option-cases (job_at i js)) [
    | inl e ↦ rw (e, at_job) v
    | inr (j, e) ↦ rw (e, at_job) (h j (All-job_at (IsQueued cfg.max_attempts) i js q e))
  ]

  at_first-IsValid :
      (f : DeliveryJob → List DeliveryJob → Dispatcher) (js : List DeliveryJob) (d : Dispatcher)
      → All (IsQueued cfg.max_attempts) js
      → IsValid cfg d
      → ((j : DeliveryJob) (rest : List DeliveryJob)
          → js ≡ j ∷ rest
          → IsQueued cfg.max_attempts j
          → All (IsQueued cfg.max_attempts) rest
          → IsValid cfg (f j rest))
      → IsValid cfg (at_first js f d)
  at_first-IsValid f [] d q v h = v
  at_first-IsValid f (j ∷ rest) d q v h = h j rest refl q.0 q.1

  begin_save-IsValid :
      (now : ℕ) (m r : String) (found : Result Error User) (d : Dispatcher)
      → IsValid cfg d
      → IsValid cfg (begin_save (on_resolved cfg now m r found) d)
  unfolding begin_save on_resolved job_for
  begin_save-IsValid now m r (ok user) d v =
      elim (Bool-cases (read "endpoint" user.metadata == "")) [
        | inl e ↦ rw e v
        | inr e ↦ rw e (record {
          made = (record { bound = refl; below = pos }, v.made);
          room = v.room;
          queued = v.queued;
          saved = v.saved;
          busy = v.busy;
          listed = v.listed;
          idle = v.idle;
          stored = v.stored;
        })
      ]
  begin_save-IsValid now m r (err not_found) d v = v
  begin_save-IsValid now m r (err e) d v = v

  after_save-IsValid :
      (now i : ℕ) (d : Dispatcher) (j : DeliveryJob)
      → IsValid cfg d
      → IsQueued cfg.max_attempts j
      → IsValid cfg (after_save now i d j)
  after_save-IsValid now i d j v q = record {
    made = All-remove_at (IsQueued cfg.max_attempts) i d.made v.made;
    saved = (q, v.saved);
    stored =
        save-Stored cfg.max_attempts now j (queued-IsBounded cfg.max_attempts j q) d.store pos
          v.stored;
    room = v.room;
    queued = v.queued;
    busy = v.busy;
    listed = v.listed;
    idle = v.idle;
  }

  after_send-IsValid :
      (i : ℕ) (d : Dispatcher) (j : DeliveryJob)
      → IsValid cfg d
      → IsQueued cfg.max_attempts j
      → IsValid cfg (after_send cfg i d j)
  after_send-IsValid i d j v q =
      let o = offer-valid cfg j d.queue q (v.room, v.queued) in
      record {
        room = o.0;
        queued = o.1;
        saved = All-remove_at (IsQueued cfg.max_attempts) i d.saved v.saved;
        made = v.made;
        busy = v.busy;
        listed = v.listed;
        idle = v.idle;
        stored = v.stored;
      }

  after_take-IsValid :
      (d : Dispatcher) (j : DeliveryJob) (rest : List DeliveryJob)
      → d.queue ≡ j ∷ rest
      → IsValid cfg d
      → IsQueued cfg.max_attempts j
      → All (IsQueued cfg.max_attempts) rest
      → IsValid cfg (after_take cfg d j rest)
  after_take-IsValid d j rest e v q h = elim (Bool-cases (ltb (length d.busy) cfg.workers)) [
    | inl f ↦
        let shorter : length d.queue ≡ suc (length rest) = ap length e in
        rw f (record {
          room = omega (arith, v.room);
          queued = h;
          busy = (q, v.busy);
          idle = ground arith;
          made = v.made;
          saved = v.saved;
          listed = v.listed;
          stored = v.stored;
        })
    | inr f ↦ rw f v
  ]

  after_attempt-IsValid :
      (w : Meets) (i : ℕ) (d : Dispatcher) (j : DeliveryJob)
      → IsValid cfg d
      → IsQueued cfg.max_attempts j
      → IsValid cfg (after_attempt w i d j)
  after_attempt-IsValid w i d j v q = record {
    busy = All-remove_at (IsQueued cfg.max_attempts) i d.busy v.busy;
    idle = omega (arith, v.idle, length-remove_at i d.busy);
    stored = attempt-Stored cfg.max_attempts w j d.store q v.stored;
    room = v.room;
    queued = v.queued;
    made = v.made;
    saved = v.saved;
    listed = v.listed;
  }

  after_offer-IsValid :
      (d : Dispatcher) (j : DeliveryJob) (rest : List DeliveryJob)
      → IsValid cfg d
      → IsQueued cfg.max_attempts j
      → All (IsQueued cfg.max_attempts) rest
      → IsValid cfg (after_offer cfg d j rest)
  after_offer-IsValid d j rest v q h =
      let o = offer-valid cfg j d.queue q (v.room, v.queued) in
      record {
        room = o.0;
        queued = o.1;
        listed = h;
        made = v.made;
        saved = v.saved;
        busy = v.busy;
        idle = v.idle;
        stored = v.stored;
      }

  step-IsValid : (e : Event) (d : Dispatcher) → IsValid cfg d → IsValid cfg (step cfg e d)
  unfolding step on_message_received sweep
  step-IsValid (received now m r) d v = begin_save-IsValid now m r (get_user r d.store) d v
  step-IsValid (saves now i) d v =
      at_job-IsValid (after_save now i d) i d.made d v.made v (λ j. after_save-IsValid now i d j v)
  step-IsValid (sends i) d v =
      at_job-IsValid (after_send cfg i d) i d.saved d v.saved v (λ j. after_send-IsValid i d j v)
  step-IsValid takes d v =
      at_first-IsValid (after_take cfg d) d.queue d v.queued v
        (λ j rest e. after_take-IsValid d j rest e v)
  step-IsValid (ends w i) d v =
      at_job-IsValid (after_attempt w i d) i d.busy d v.busy v
        (λ j. after_attempt-IsValid w i d j v)
  step-IsValid (ticks now) d v =
      at_first-IsValid (λ job rest. d) d.listed
        (record d { listed = list_pending_delivery_jobs now (capacity cfg) d.store }) v.listed
        (record {
          listed = pending-IsQueued cfg.max_attempts now (capacity cfg) d.store v.stored;
          room = v.room;
          queued = v.queued;
          made = v.made;
          saved = v.saved;
          busy = v.busy;
          idle = v.idle;
          stored = v.stored;
        })
        (λ j rest e q h. v)
  step-IsValid sweeps d v =
      at_first-IsValid (after_offer cfg d) d.listed d v.listed v
        (λ j rest e. after_offer-IsValid d j rest v)

  -- From a valid dispatcher, with a positive bound on the attempts: whatever messages arrive, and
  -- however the steps of the handlers, of the workers and of the sweeper interleave, between the save
  -- and the send of a job and between the start and the end of an attempt too, the channel never
  -- holds more than its capacity, no more attempts are under way than there are workers, every job
  -- that is queued, attempted, or about to be saved or sent has an attempt left, and no job in the
  -- store has more attempts than the configuration allows or is open once it has as many.
  pub run-IsValid : (es : List Event) (d : Dispatcher) → IsValid cfg d → IsValid cfg (run cfg es d)
  unfolding run
  run-IsValid [] d v = v
  run-IsValid (e ∷ es) d v = run-IsValid es (step cfg e d) (step-IsValid e d v)
