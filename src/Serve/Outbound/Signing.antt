-- ===== src/Serve/Outbound/Signing.antt =====
-- Which settings give an outbound backend, and what leaves through it.
use postbox.Common.{
  String, Bool, true, false, Option, none, some, List, ◌≡◌, refl, ap, string_Eq, ◌==◌,
  if◌then◌else◌, Result, ok, err, Bool-cases, inl, inr,
}
use postbox.Common.Map.{Map}
use postbox.Relay.Message.{SmtpConfig, MailCall, smtp_send}
use postbox.Relay.Message.Signed.{prefixed, with_signature, dkim_send-smtp_send}
use postbox.Serve.Outbound.{
  OutboundConfig, DkimConfig, Backend, smtp, BuildError, base_backend, new_dkim, with_key,
  wants_dkim, build_relay_backend, send,
}

-- The settings of the SMTP backend.
abbrev pub smtp_of : OutboundConfig → SmtpConfig
smtp_of cfg = record {
  host = cfg.smtp_host;
  username = cfg.smtp_username;
  password = cfg.smtp_password;
  default_from = cfg.default_from;
}

abbrev pub dkim_of : OutboundConfig → String → DkimConfig
dkim_of cfg pem = record {
  private_key = pem;
  domain = cfg.dkim_domain;
  selector = cfg.dkim_selector;
}

abbrev pub sends :
    Result BuildError Backend
    → (Backend → Option (Result String MailCall))
    → Option (Result String MailCall)
sends (err e) send_by = none
sends (ok b) send_by = send_by b

-- What leaves: nothing where the key cannot be used, and the message signed or as it is.
abbrev pub outcome :
    OutboundConfig
    → (String → Bool)
    → Option String
    → (DkimConfig → String → Result String String)
    → MailCall
    → Option (Result String MailCall)
outcome cfg parses none field_of call = if wants_dkim cfg then none else some (ok call)
outcome cfg parses (some pem) field_of call =
    if wants_dkim cfg
    then (if parses pem
        then some (with_signature (field_of (dkim_of cfg pem) call.msg) call)
        else none)
    else some (ok call)

smtp-base_backend :
    (cfg : OutboundConfig) → cfg.backend ≡ "smtp" → base_backend cfg ≡ ok (smtp (smtp_of cfg))
unfolding base_backend
smtp-base_backend cfg e =
    let not_sendgrid : (cfg.backend == "sendgrid") ≡ false =
      ap (λ (t : String). t == "sendgrid") e in
    let is_smtp : (cfg.backend == "smtp") ≡ true = ap (λ (t : String). t == "smtp") e in
    rw not_sendgrid (rw is_smtp refl)

module _ (fold : String → String → Bool)
    (sign field_of : DkimConfig → String → Result String String)
    (puts_first : (d : DkimConfig) (raw : String) → sign d raw ≡ prefixed (field_of d raw) raw)
    (parses : String → Bool) (cfg : OutboundConfig) (sender : String) (to : List String)
    (subject body : String) (headers : Map String String) where
  abbrev send_by : Backend → Option (Result String MailCall)
  send_by b = send fold sign b sender to subject body headers

  abbrev call : MailCall
  call = smtp_send fold (smtp_of cfg) sender to subject body headers

  with_key-sends :
      (file : Option String)
      → wants_dkim cfg ≡ true
      → sends (with_key parses cfg (smtp (smtp_of cfg)) file) send_by
        ≡ outcome cfg parses file field_of call
  unfolding new_dkim send
  with_key-sends none h = rw h refl
  with_key-sends (some pem) h = elim (Bool-cases (parses pem)) [
    | inl e ↦ rw h (
        rw e (
          ap some (
            dkim_send-smtp_send fold (sign (dkim_of cfg pem)) (field_of (dkim_of cfg pem))
              (smtp_of cfg) sender to subject body headers (puts_first (dkim_of cfg pem)))))
    | inr e ↦ rw h (rw e refl)
  ]

  unsigned-sends :
      (file : Option String)
      → wants_dkim cfg ≡ false
      → sends (ok (smtp (smtp_of cfg))) send_by ≡ outcome cfg parses file field_of call
  unfolding send
  unsigned-sends none h = rw h refl
  unsigned-sends (some pem) h = rw h refl

-- A signer puts a field, which may be made from the settings and the message, in front of the message, or
-- fails. Then with the SMTP backend, every message leaves with its signature in front where all three
-- settings of DKIM are there, the key's file can be read and its key parsed; it leaves as the SMTP backend
-- alone sends it, not signed, where one of the three is empty, whatever the others are; and otherwise no
-- backend is built.
pub sends-build_relay_backend :
    (fold : String → String → Bool) (sign field_of : DkimConfig → String → Result String String)
    (read_file : String → Option String) (parses : String → Bool) (cfg : OutboundConfig)
    (sender : String) (to : List String) (subject body : String) (headers : Map String String)
    → ((d : DkimConfig) (raw : String) → sign d raw ≡ prefixed (field_of d raw) raw)
    → cfg.backend ≡ "smtp"
    → sends
        (build_relay_backend read_file parses cfg)
        (λ b. send fold sign b sender to subject body headers)
      ≡ outcome cfg parses
          (read_file cfg.dkim_private_key_file)
          field_of
          (smtp_send fold (smtp_of cfg) sender to subject body headers)
unfolding build_relay_backend
sends-build_relay_backend fold sign field_of read_file parses cfg sender to subject body headers
      puts_first e =
    let file = read_file cfg.dkim_private_key_file in
    rw (smtp-base_backend cfg e) (elim (Bool-cases (wants_dkim cfg)) [
      | inl h ↦ rw h (
          with_key-sends fold sign field_of puts_first parses cfg sender to subject body headers
            file h)
      | inr h ↦ rw h (
          unsigned-sends fold sign field_of puts_first parses cfg sender to subject body headers
            file h)
    ])
