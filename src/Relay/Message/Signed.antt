-- ===== src/Relay/Message/Signed.antt =====
-- The DKIM backend over an SMTP backend against that backend alone.
use postbox.Common.{
  String, Bool, List, ◌≡◌, refl, Result, ok, err, arith, Bool-cases, inl, inr, string_Eq, ◌==◌,
}
use postbox.Common.Map.{Map}
use postbox.Relay.Message.{
  ◌<>◌, SmtpConfig, MailCall, or_from, build_rfc5322, send_mail, smtp_send, send_raw, send_signed,
  dkim_send,
}

-- A signature field in front of a message.
abbrev pub prefixed : Result String String → String → Result String String
prefixed (err e) msg = err e
prefixed (ok field) msg = ok (field <> msg)

-- The call with the signature field in front of its message.
abbrev pub with_signature : Result String String → MailCall → Result String MailCall
with_signature (err e) call = err e
with_signature (ok field) call = ok (record call { msg = field <> call.msg })

or_from_idempotent :
    (cfg : SmtpConfig) (sender : String) → or_from cfg (or_from cfg sender) ≡ or_from cfg sender
or_from_idempotent cfg sender = elim (Bool-cases (sender == "")) [
  | inl e ↦ rw e (ground arith)
  | inr e ↦ rw e (rw e refl)
]

signed-call :
    (cfg : SmtpConfig) (sender : String) (to : List String) (msg : String)
    (field : Result String String)
    → send_signed cfg (or_from cfg sender) to (prefixed field msg)
      ≡ with_signature field (send_mail cfg (or_from cfg sender) to msg)
unfolding send_mail send_raw
signed-call cfg sender to msg (err e) = refl
signed-call cfg sender to msg (ok field) = rw (or_from_idempotent cfg sender) refl

-- A signer puts a field, which may be made from the message, in front of the message, or fails. Then the
-- signing backend makes the call that the SMTP backend makes alone, with the same envelope, credentials
-- and recipients, and with the signature of that call's message, its default sender included, in front
-- of the same message; where the signer fails there is no call.
pub dkim_send-smtp_send :
    (fold : String → String → Bool) (sign field_of : String → Result String String)
    (cfg : SmtpConfig) (sender : String) (to : List String) (subject body : String)
    (headers : Map String String)
    → ((raw : String) → sign raw ≡ prefixed (field_of raw) raw)
    → let call = smtp_send fold cfg sender to subject body headers in
      dkim_send fold sign cfg sender to subject body headers
      ≡ with_signature (field_of call.msg) call
unfolding dkim_send smtp_send send_mail
dkim_send-smtp_send fold sign field_of cfg sender to subject body headers h =
    let raw = build_rfc5322 fold (or_from cfg sender) to subject body headers in
    rw (h raw) (signed-call cfg sender to raw (field_of raw))
