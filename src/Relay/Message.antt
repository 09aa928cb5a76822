-- ===== src/Relay/Message.antt =====
-- internal/relay/smtp.go and internal/relay/dkim.go: the message that goes out, and the backends that send
-- it by SMTP. The DKIM signer and `strings.EqualFold` are arguments, and a backend's result is its call of
-- `smtp.SendMail`.
pub mod Reading
pub mod RoundTrip
pub mod Injected
pub mod Signed
use Prim.Native.String.{◌++◌ as str_append}
use postbox.Common.{
  ℕ, String, Bool, Option, none, some, List, [], ◌∷◌, nat_Eq, string_Eq, ◌==◌, if◌then◌else◌,
  Result, ok, err,
}
use postbox.Common.Map.{Map}

infixr 60 ◌<>◌
-- Texts written one after the other.
abbrev pub ◌<>◌ : String → String → String
s <> t = str_append s t

abbrev pub line_end : String
line_end = "\r\n"

-- `strings.Join(to, ", ")`
unfoldable pub join : List String → String
join [] = ""
join (a ∷ []) = a
join (a ∷ b ∷ rest) = a <> ", " <> join (b ∷ rest)

abbrev pub written : String → String → String × String → String × String
written k v (text, ct) = (k <> ": " <> v <> line_end <> text, ct)

-- The loop over the extra headers: what it writes, and the content type after it.
unfoldable pub write_headers :
    (String → String → Bool) → Map String String → String → String × String
write_headers fold [] ct = ("", ct)
write_headers fold ((k, v) ∷ rest) ct =
    let skip = write_headers fold rest v in
    let next = written k v (write_headers fold rest ct) in
    if fold k "content-type" then skip else next

-- What follows the subject's line.
abbrev pub tail_of : String → String × String → String
tail_of body (text, ct) = text <> "Content-Type: " <> ct <> line_end <> line_end <> body

-- `buildRFC5322`
unfoldable pub build_rfc5322 :
    (String → String → Bool) → String → List String → String → String → Map String String → String
unfolding write_headers
build_rfc5322 fold sender to subject body extra_headers =
    "MIME-Version: 1.0"
    <> line_end
    <> "From: "
    <> sender
    <> line_end
    <> "To: "
    <> join to
    <> line_end
    <> "Subject: "
    <> subject
    <> line_end
    <> tail_of body (write_headers fold extra_headers "text/plain; charset=utf-8")

pub record SmtpConfig : Type 0 where
  pub host : String
  pub username : String
  pub password : String
  pub default_from : String

-- A call of `smtp.SendMail`; the credentials are those of `smtp.PlainAuth`.
pub record MailCall : Type 0 where
  pub addr : String
  pub auth : Option (String × String)
  pub envelope_from : String
  pub to : List String
  pub msg : String

-- `send` of SMTPBackend
unfoldable pub send_mail : SmtpConfig → String → List String → String → MailCall
send_mail cfg sender to msg = record {
  addr = cfg.host;
  auth = if cfg.username == "" then none else some (cfg.username, cfg.password);
  envelope_from = sender;
  to = to;
  msg = msg;
}

abbrev pub or_from : SmtpConfig → String → String
or_from cfg sender = if sender == "" then cfg.default_from else sender

-- `Send` of SMTPBackend
unfoldable pub smtp_send :
    (String → String → Bool)
    → SmtpConfig
    → String
    → List String
    → String
    → String
    → Map String String
    → MailCall
unfolding send_mail build_rfc5322
smtp_send fold cfg sender to subject body headers =
    let from = or_from cfg sender in
    send_mail cfg from to (build_rfc5322 fold from to subject body headers)

-- `SendRaw` of SMTPBackend
unfoldable pub send_raw : SmtpConfig → String → List String → String → MailCall
unfolding send_mail
send_raw cfg sender to raw = send_mail cfg (or_from cfg sender) to raw

abbrev pub send_signed :
    SmtpConfig → String → List String → Result String String → Result String MailCall
send_signed cfg from to (err e) = err e
send_signed cfg from to (ok signed) = ok (send_raw cfg from to signed)

-- `Send` of DKIMSigningBackend over an SMTPBackend; `sign` is `dkim.Sign` with the options of the backend.
unfoldable pub dkim_send :
    (String → String → Bool)
    → (String → Result String String)
    → SmtpConfig
    → String
    → List String
    → String
    → String
    → Map String String
    → Result String MailCall
unfolding send_raw build_rfc5322
dkim_send fold sign cfg sender to subject body headers =
    let from = or_from cfg sender in
    send_signed cfg from to (sign (build_rfc5322 fold from to subject body headers))
