-- ===== src/Smtp/Lmtp/Status.antt =====
-- The statuses that an LMTP session reports, and how the policies on authentication treat its messages.
use postbox.Common.{
  String, ◌&&◌, not, Option, List, [], ◌∷◌, ◌++◌, ◌≡◌, refl, ap, string_Eq, ◌==◌, arith, map, ◌∙◌,
  sym,
}
use mathlib.Core.List.{append-nil, append_assoc}
use postbox.Common.Map.{get}
use postbox.Plugin.SmtpSecurity.{AddressLib}
use postbox.Plugin.EmailAuth.{MailLib, AuthConfig, from_domain, before_send}
use postbox.Plugin.EmailAuth.Policies.{passes, email-before_send}
use postbox.Smtp.{SmtpError}
use postbox.Smtp.Request.{Mail, Read, Threads}
use postbox.Smtp.Lmtp.{
  LmtpSession, Mailbox, mail_from, rcpt, reset, lmtp_request, deliver_message, set_statuses,
  lmtp_data,
}

set_statuses-map :
    (e : Option SmtpError) (to : List String) → set_statuses e to ≡ map (λ r. (r, e)) to
unfolding set_statuses
set_statuses-map e [] = refl
set_statuses-map e (r ∷ to) = ap (λ x. (r, e) ∷ x) (set_statuses-map e to)

-- RCPT commands, in order.
unfoldable pub rcpts : List String → LmtpSession → LmtpSession
unfolding rcpt
rcpts [] s = s
rcpts (to ∷ rest) s = rcpts rest (rcpt to s)

rcpts-lem :
    (tos : List String) (s : LmtpSession)
    → rcpts tos s ≡ record s { recipients = s.recipients ++ tos }
unfolding rcpts
rcpts-lem [] s = ap (λ xs. record s { recipients = xs }) (sym (append-nil s.recipients))
rcpts-lem (to ∷ tos) s =
    rcpts-lem tos (rcpt to s)
    ∙ ap (λ xs. record s { recipients = xs }) (append_assoc s.recipients (to ∷ []) tos)

-- After a reset, a sender and any recipients, `LMTPData` reports one status for each recipient, in the
-- order of the commands, repeated ones included, and all of them are the same: the result of the one
-- delivery.
pub lmtp_data-rcpts :
    (lib : AddressLib) (threads : Threads) (send : Mailbox) (r : Read) (s : LmtpSession)
    (from : String) (tos : List String)
    → let s' = rcpts tos (mail_from from (reset s)) in
      lmtp_data lib threads send r s' ≡ map (λ to. (to, deliver_message lib threads send r s')) tos
unfolding lmtp_data mail_from reset
lmtp_data-rcpts lib threads send r s from tos =
    let s' = rcpts tos (mail_from from (reset s)) in
    let e = deliver_message lib threads send r s' in
    ap (set_statuses e) (ap (λ x. x.recipients) (rcpts-lem tos (mail_from from (reset s))))
    ∙ set_statuses-map e tos

-- The plugin for authentication lets a message of the LMTP listener pass exactly when neither the
-- policy on SPF nor that on DKIM is "require": the request has no results of these.
pub lmtp-before_send :
    (lib : MailLib) (cfg : AuthConfig) (threads : Threads) (s : LmtpSession) (msg : Mail)
    → passes (before_send lib cfg (lmtp_request threads s msg).headers)
      ≡ (not (cfg.spf_policy == "require") && not (cfg.dkim_policy == "require"))
unfolding lmtp_request get from_domain
lmtp-before_send lib cfg threads s msg =
    email-before_send lib cfg (lmtp_request threads s msg).headers ∙ ground arith
