-- ===== src/Tests/Relay.antt =====
-- The theorems on the relay's queue, on a queue with one worker, and those on what is posted.
use postbox.Common.{
  true, false, ◌≡◌, ◌≤◌, ◌+◌, ◌*◌, refl, some, List, [], ◌∷◌, string_Eq, ok, err, arith,
}
use postbox.Common.Map.{get}
use postbox.Relay.Queue.{
  QueueConfig, QueuedJob, Event, enqueued, taken, finished, stop_called, sent, new, run, second,
  drain, step, enqueue, take_job, finish, pick, process, requeue, buf_size,
}
use postbox.Relay.Queue.Drained.{drain-run}
use postbox.Relay.Queue.Attempts.{remaining, run-calls}
use postbox.Webhook.Payload.{Message, text, other}
use postbox.Webhook.Signer.{
  Crypto, Signer, too_old, signed_headers, verify, verify-signed_headers, verify-replay,
}

abbrev cfg : QueueConfig
cfg = record { workers = 1; max_retries = 2; base_delay = 5 * second; max_delay = 60 * second }

abbrev mail : QueuedJob
mail = record {
  sender = "a";
  recipients = "b" ∷ [];
  subject = "s";
  body = "t";
  headers = [];
  attempts = 9;
  next_retry = 0;
}

-- A job that fails twice.
abbrev events : List Event
events =
    enqueued false true mail
    ∷ taken
    ∷ finished 0 (sent false 1) true
    ∷ taken
    ∷ finished 0 (sent false 9) true
    ∷ stop_called
    ∷ []

calls_example :
    let (q', accepted, made) = run cfg events new in made + remaining cfg q' ≤ accepted * 2
calls_example = run-calls cfg events (omega arith)

abbrev letter : Message
letter = record {
  id = "m1";
  thread_id = "";
  reply_to_id = "";
  external_id = "";
  sender_id = "bob";
  subject = "s";
  body = "t";
  metadata = ("lang", text "en") ∷ ("size", other) ∷ [];
}

-- A signature scheme of one key.
abbrev toy : Crypto
toy = record {
  sign = λ key body. body;
  verify = λ key body sig. true;
  encode = λ t. t;
  decode = λ t. some t;
  format_int = λ n. "0";
}

abbrev signer : Signer
signer = record { priv_key = "k"; key_id = "v1" }

signed_example :
    (get "X-Postbox-Signature-Ed25519" (signed_headers toy signer "hello" 100) ≡ some "hello")
    × (verify toy "p" "hello" "hello" 130 100 20 ≡ err too_old)
signed_example =
    verify-signed_headers toy "k" "p" (record { verifies = λ body. refl; decodes = λ t. refl })
      signer "hello" 130 100 20 refl

replay_example : verify toy "p" "hello" "hello" 990 1000 20 ≡ ok tt
unfolding verify
replay_example = verify-replay toy "p" "hello" "hello" 110 100 20 990 1000 refl (omega arith)

-- The retry of the job waits in the buffer, and the backend refuses it again.
drained_example :
    let q =
      (run cfg (enqueued false true mail ∷ taken ∷ finished 0 (sent false 1) true ∷ []) new).0 in
    ((drain cfg (λ k. (sent false 9, true)) 2 q).jobs ≡ [])
    × ((drain cfg (λ k. (sent false 9, true)) 2 q).held ≡ q.held)
unfolding run step enqueue take_job finish pick process requeue new buf_size
drained_example =
    drain-run cfg (enqueued false true mail ∷ taken ∷ finished 0 (sent false 1) true ∷ [])
      (λ k. (sent false 9, true)) 2 (omega arith) (omega arith) (omega arith)
