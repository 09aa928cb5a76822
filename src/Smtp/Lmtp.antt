-- ===== src/Smtp/Lmtp.antt =====
-- internal/smtp/lmtp.go: the session of the LMTP listener. Messages and the mailbox are given as for
-- the SMTP listener.
pub mod Status
use Prim.Native.Nat.{min}
use postbox.Common.{
  ℕ, ◌*◌, ◌^◌, String, Bool, true, false, ◌&&◌, not, Option, none, some, List, [], ◌∷◌, ◌++◌,
  nat_Eq, string_Eq, ◌==◌, leb, if◌then◌else◌, Result, ok, err,
}
use postbox.Common.Map.{Map}
use postbox.Plugin.SmtpSecurity.{AddressLib}
use postbox.Smtp.{SmtpError, code, failure, extract_addr, body_read_cap, sanitise_message_id}
use postbox.Smtp.Request.{
  Mail, Read, bad, mail, SendRequest, Threads, sanitise_header_value, trim_line_ends, reply_to,
}

pub record LmtpConfig : Type 0 where
  pub socket_path : String
  pub port : ℕ
  pub bind_addr : String
  pub domain : String
  pub max_message_bytes : ℕ
  pub max_recipients : ℕ
  pub read_timeout : ℕ
  pub write_timeout : ℕ

abbrev second : ℕ
second = 1_000_000_000

abbrev or_default : ℕ → ℕ → ℕ
or_default n d = if n == 0 then d else n

-- `applyDefaults`
unfoldable pub apply_defaults : LmtpConfig → LmtpConfig
apply_defaults c = record c {
  port = if c.port == 0 && c.socket_path == "" then 2424 else c.port;
  domain = if c.domain == "" then "localhost" else c.domain;
  max_message_bytes = or_default c.max_message_bytes (10 * 2 ^ 20);
  max_recipients = or_default c.max_recipients 100;
  read_timeout = or_default c.read_timeout (300 * second);
  write_timeout = or_default c.write_timeout (60 * second);
}

pub record LmtpSession : Type 0 where
  pub remote_addr : String
  pub sender : String
  pub recipients : List String

-- `NewSession`
unfoldable pub new_session : Option String → LmtpSession
new_session conn = record {
  remote_addr = elim conn [ none ↦ "" | some addr ↦ addr ];
  sender = "";
  recipients = [];
}

-- `Mail`
unfoldable pub mail_from : String → LmtpSession → LmtpSession
mail_from from s = record s { sender = from }

-- `Rcpt`
unfoldable pub rcpt : String → LmtpSession → LmtpSession
rcpt to s = record s { recipients = s.recipients ++ to ∷ [] }

-- `Reset`
unfoldable pub reset : LmtpSession → LmtpSession
reset s = record s { sender = ""; recipients = [] }

unfoldable pub lmtp_request : Threads → LmtpSession → Mail → SendRequest
lmtp_request threads s msg = record {
  recipient_ids = s.recipients;
  subject = sanitise_header_value (msg.field "Subject") 998;
  body = trim_line_ends msg.content;
  external_id = sanitise_message_id (msg.field "Message-ID") 995;
  reply_to_id = reply_to threads s.recipients (sanitise_message_id (msg.field "In-Reply-To") 995);
  headers = ("X-SMTP-Envelope-From", s.sender) ∷ ("X-LMTP-Remote-Addr", s.remote_addr) ∷ [];
}

-- `SendMessage` of the mailbox: as whom, what, and its error.
abbrev pub Mailbox : Type 0
Mailbox = String → SendRequest → Option String

abbrev reply_of : Option String → Option SmtpError
reply_of none = none
reply_of (some e) = some (failure e)

-- `deliverMessage`; `none` where the mailbox took the message.
unfoldable pub deliver_message :
    AddressLib → Threads → Mailbox → Read → LmtpSession → Option SmtpError
unfolding lmtp_request
deliver_message lib threads send (bad e) s = some (failure e)
deliver_message lib threads send (mail msg) s =
    if leb body_read_cap (min msg.content_bytes body_read_cap)
    then some (code 552)
    else reply_of (
        send (if s.sender == "" then extract_addr lib (msg.field "From") else s.sender)
          (lmtp_request threads s msg))

-- The loop over the recipients: the calls of `SetStatus`, in order.
unfoldable pub set_statuses : Option SmtpError → List String → List (String × Option SmtpError)
set_statuses e [] = []
set_statuses e (to ∷ rest) = (to, e) ∷ set_statuses e rest

-- `LMTPData`
unfoldable pub lmtp_data :
    AddressLib → Threads → Mailbox → Read → LmtpSession → List (String × Option SmtpError)
unfolding deliver_message set_statuses
lmtp_data lib threads send r s = set_statuses (deliver_message lib threads send r s) s.recipients
