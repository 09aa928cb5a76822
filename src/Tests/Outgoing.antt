-- ===== src/Tests/Outgoing.antt =====
-- The theorems on the relay's messages, on one message.
use postbox.Common.{
  String, Bool, true, false, ◌&&◌, ◌||◌, not, none, some, [], ◌∷◌, ◌≡◌, refl, nat_Eq, string_Eq,
  ◌==◌, ltb, if◌then◌else◌,
}
use postbox.Common.Map.{Map}
use postbox.Relay.Queue.{QueueConfig, new}
use postbox.Relay.Message.{◌<>◌, line_end, join, SmtpConfig, build_rfc5322}
use postbox.Relay.Message.Reading.{is_one_line, read_message}
use postbox.Relay.Message.RoundTrip.{last_lines, read_message-build_rfc5322}
use postbox.Relay.Message.Injected.{build_rfc5322-injected}
use postbox.Relay.Server.{
  SendMessageRequest, RelayServer, max_relay_body_bytes, byte_length, job_of, send_message,
}
use postbox.Relay.Server.Handed.{
  accepted, buffered, takes, has_queue, joined, is_due, send_message_lem,
}

abbrev fold : String → String → Bool
fold a b = a == b

abbrev extra : Map String String
extra = ("X-Id", "7") ∷ ("content-type", "text/html") ∷ []

reading_example :
    read_message 8 (build_rfc5322 fold "ann@home.test" ("bob@away.test" ∷ []) "hello" "hi" extra)
    ≡ some (
      "MIME-Version: 1.0"
          ∷ ("From: " <> "ann@home.test")
          ∷ ("To: " <> join ("bob@away.test" ∷ []))
          ∷ ("Subject: " <> "hello")
          ∷ last_lines fold extra "text/plain; charset=utf-8",
      "hi",
    )
unfolding is_one_line
reading_example =
    read_message-build_rfc5322 fold "ann@home.test" ("bob@away.test" ∷ []) "hello" "hi" extra refl
      refl refl refl

injected_example :
    build_rfc5322 fold "ann@home.test"
      ("bob@away.test" ∷ [])
      ("hello" <> line_end <> "Bcc" <> ": " <> "eve@evil.test")
      "hi"
      extra
    ≡ build_rfc5322 fold "ann@home.test"
        ("bob@away.test" ∷ [])
        "hello"
        "hi"
        (("Bcc", "eve@evil.test") ∷ extra)
injected_example =
    build_rfc5322-injected fold "ann@home.test" ("bob@away.test" ∷ []) "hello" "Bcc" "eve@evil.test"
      "hi" extra refl

abbrev smtp : SmtpConfig
smtp = record {
  host = "smtp.test:587";
  username = "";
  password = "";
  default_from = "noreply@home.test";
}

abbrev settings : QueueConfig
settings = record { workers = 1; max_retries = 3; base_delay = 5; max_delay = 60 }

abbrev letter : SendMessageRequest
letter = record {
  user_id = "ann@home.test";
  recipient_ids = "bob@away.test" ∷ "eve@far.test" ∷ [];
  deliver_to = "eve@far.test" ∷ [];
  subject = "hello";
  body = "hi";
  headers = extra;
}

abbrev relay : RelayServer
relay = record { queue = some new; called = [] }

handed_example :
    let (s', r) = send_message settings (λ job. none) false true letter relay in
    let take = takes settings (λ job. none) false true (job_of letter) relay.queue in
    (accepted r
      ≡ (not (ltb max_relay_body_bytes (byte_length letter.body)) && (not (is_due letter) || take)))
    × (buffered s'.queue
        ≡ joined
            (is_due letter && has_queue relay.queue && take)
            (job_of letter)
            (buffered relay.queue))
    × (s'.called ≡ (
        if is_due letter && not (has_queue relay.queue)
        then job_of letter ∷ relay.called
        else relay.called))
handed_example = send_message_lem settings (λ job. none) false true letter relay
