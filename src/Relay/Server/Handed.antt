-- ===== src/Relay/Server/Handed.antt =====
-- Where the messages go that the relay accepts.
use postbox.Common.{
  String, Bool, true, false, ◌&&◌, ◌||◌, not, Option, none, some, List, [], ◌∷◌, ◌++◌, ◌≡◌, nat_Eq,
  ◌==◌, ltb, if◌then◌else◌, Result, ok, err, length, arith,
}
use postbox.Relay.Queue.{QueueConfig, QueuedJob, RelayQueue, buf_size, enqueue}
use postbox.Relay.Server.{
  SendMessageRequest, max_relay_body_bytes, byte_length, job_of, RelayServer, RelayError,
  deliver_now, send_message,
}

abbrev pub accepted : Result RelayError (Unit {0}) → Bool
accepted (ok u) = true
accepted (err e) = false

abbrev is_none : Option String → Bool
is_none none = true
is_none (some e) = false

-- The buffered jobs.
abbrev pub buffered : Option RelayQueue → List QueuedJob
buffered none = []
buffered (some q) = q.jobs

-- The queue has room and the context does not end first; without a queue, the backend takes the job.
abbrev pub takes :
    QueueConfig → (QueuedJob → Option String) → Bool → Bool → QueuedJob → Option RelayQueue → Bool
takes cfg backend ctx_done first job none = is_none (backend job)
takes cfg backend ctx_done first job (some q) =
    ltb (length q.jobs) (buf_size cfg) && (not ctx_done || first)

abbrev pub has_queue : Option RelayQueue → Bool
has_queue none = false
has_queue (some q) = true

abbrev pub joined : Bool → QueuedJob → List QueuedJob → List QueuedJob
joined take job js = if take then js ++ job ∷ [] else js

module _ (cfg : QueueConfig) (backend : QueuedJob → Option String) (ctx_done first : Bool) where
  deliver_now_lem :
      (job : QueuedJob) (s : RelayServer)
      → let (s', r) = deliver_now cfg backend ctx_done first job s in
        let take = takes cfg backend ctx_done first job s.queue in
        (accepted r ≡ take)
        × (buffered s'.queue
            ≡ joined
                (has_queue s.queue && take)
                (record job { attempts = 0; next_retry = 0 })
                (buffered s.queue))
        × (s'.called ≡ (if has_queue s.queue then s.called else job ∷ s.called))
  unfolding deliver_now enqueue
  deliver_now_lem job s = helper s.queue
    where
      helper :
          (queue : Option RelayQueue)
          → let (s', r) = deliver_now cfg backend ctx_done first job (record s { queue = queue }) in
            let take = takes cfg backend ctx_done first job queue in
            (accepted r ≡ take)
            × (buffered s'.queue
                ≡ joined
                    (has_queue queue && take)
                    (record job { attempts = 0; next_retry = 0 })
                    (buffered queue))
            × (s'.called ≡ (if has_queue queue then s.called else job ∷ s.called))
      helper none = ground arith
      helper (some q) = ground arith

-- The body is short enough and there is someone to deliver to: the recipients of the forwarder, or else
-- those of the request.
abbrev pub is_due : SendMessageRequest → Bool
is_due req =
    not (ltb max_relay_body_bytes (byte_length req.body))
    && not (length req.deliver_to == 0 && length req.recipient_ids == 0)

-- `SendMessage` succeeds exactly when the body has at most 25 MiB in UTF-8 and there is no recipient, or the
-- queue has room and the context does not win against it, or there is no queue and the backend takes the
-- message. With a queue the backend is not called, and the buffer grows at its end by the message of the
-- request exactly when `SendMessage` succeeds for some recipient; without one the backend is called once,
-- with the message of the request, exactly when the checks pass and there is a recipient.
pub send_message_lem :
    (cfg : QueueConfig) (backend : QueuedJob → Option String) (ctx_done first : Bool)
    (req : SendMessageRequest) (s : RelayServer)
    → let (s', r) = send_message cfg backend ctx_done first req s in
      let take = takes cfg backend ctx_done first (job_of req) s.queue in
      (accepted r
        ≡ (not (ltb max_relay_body_bytes (byte_length req.body)) && (not (is_due req) || take)))
      × (buffered s'.queue
          ≡ joined (is_due req && has_queue s.queue && take) (job_of req) (buffered s.queue))
      × (s'.called
          ≡ (if is_due req && not (has_queue s.queue) then job_of req ∷ s.called else s.called))
unfolding send_message
send_message_lem cfg backend ctx_done first req s =
    ground (arith, deliver_now_lem cfg backend ctx_done first (job_of req) s)
