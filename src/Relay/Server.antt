-- ===== src/Relay/Server.antt =====
-- internal/relay/relay.go: `SendMessage` of the relay's own gRPC server, with its queue or without. The
-- answer of the backend to a message is an argument, and so are the readings of `Enqueue`.
pub mod Handed
use Prim.Native.Char
use postbox.Common.{
  ℕ, ◌+◌, ◌*◌, ◌^◌, String, Bool, Option, none, some, List, [], ◌∷◌, nat_Eq, ◌==◌, ltb,
  if◌then◌else◌, Result, ok, err, length,
}
use postbox.Common.Map.{Map}
use postbox.Smtp.Request.{encode}
use postbox.Relay.Queue.{QueueConfig, QueuedJob, RelayQueue, EnqueueError, enqueue}

pub record SendMessageRequest : Type 0 where
  pub user_id : String
  pub recipient_ids : List String
  pub deliver_to : List String
  pub subject : String
  pub body : String
  pub headers : Map String String

abbrev pub max_relay_body_bytes : ℕ
max_relay_body_bytes = 25 * 2 ^ 20

-- `len` of a text: its bytes in UTF-8.
unfoldable pub byte_length : String → ℕ
byte_length String.[] = 0
byte_length (String.◌∷◌ c s) = length (encode (Char.code c)) + byte_length s

pub data RelayError : Type 0 where
  invalid_argument : RelayError
  resource_exhausted : EnqueueError → RelayError
  internal : String → RelayError

abbrev pub relay_recipients : SendMessageRequest → List String
relay_recipients req = if length req.deliver_to == 0 then req.recipient_ids else req.deliver_to

-- What is enqueued, or sent at once.
abbrev pub job_of : SendMessageRequest → QueuedJob
job_of req = record {
  sender = req.user_id;
  recipients = relay_recipients req;
  subject = req.subject;
  body = req.body;
  headers = req.headers;
  attempts = 0;
  next_retry = 0;
}

-- The server: its queue, if it has one, and the messages that its backend got from `SendMessage`, the last
-- one first.
pub record RelayServer : Type 0 where
  pub queue : Option RelayQueue
  pub called : List QueuedJob

abbrev pub enqueued :
    RelayServer
    → RelayQueue × Result EnqueueError (Unit {0})
    → RelayServer × Result RelayError (Unit {0})
enqueued s (q, ok u) = (record s { queue = some q }, ok tt)
enqueued s (q, err e) = (record s { queue = some q }, err (resource_exhausted e))

abbrev pub sent_now :
    Option String → QueuedJob → RelayServer → RelayServer × Result RelayError (Unit {0})
sent_now none job s = (record s { called = job ∷ s.called }, ok tt)
sent_now (some e) job s = (record s { called = job ∷ s.called }, err (internal e))

-- `SendMessage` after its checks.
unfoldable pub deliver_now :
    QueueConfig
    → (QueuedJob → Option String)
    → Bool
    → Bool
    → QueuedJob
    → RelayServer
    → RelayServer × Result RelayError (Unit {0})
unfolding enqueue
deliver_now cfg backend ctx_done first job s = elim s.queue [
  | some q ↦ enqueued s (enqueue cfg ctx_done first job q)
  | none ↦ sent_now (backend job) job s
]

-- `SendMessage`
unfoldable pub send_message :
    QueueConfig
    → (QueuedJob → Option String)
    → Bool
    → Bool
    → SendMessageRequest
    → RelayServer
    → RelayServer × Result RelayError (Unit {0})
unfolding deliver_now byte_length
send_message cfg backend ctx_done first req s =
    if ltb max_relay_body_bytes (byte_length req.body)
    then (s, err invalid_argument)
    else if length (relay_recipients req) == 0
    then (s, ok tt)
    else deliver_now cfg backend ctx_done first (job_of req) s
