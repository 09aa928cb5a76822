-- ===== src/Serve/Outbound.antt =====
-- cmd/serve.go: the outbound backend that the settings name, with its signer of internal/relay/dkim.go.
-- Reading the key's file and parsing the key are arguments; a key is its text.
pub mod Signing
use postbox.Common.{
  ℕ, ◌*◌, String, Bool, true, false, ◌&&◌, not, Option, none, some, List, nat_Eq, string_Eq, ◌==◌,
  if◌then◌else◌, Result, ok, err, ◌>>=◌,
}
use postbox.Common.Map.{Map}
use postbox.Relay.Message.{SmtpConfig, MailCall, smtp_send, dkim_send}

abbrev second : ℕ
second = 1_000_000_000

pub record OutboundConfig : Type 0 where
  pub backend : String
  pub default_from : String
  pub smtp_host : String
  pub smtp_username : String
  pub smtp_password : String
  pub send_grid_api_key : String
  pub send_grid_timeout_secs : ℕ
  pub dkim_private_key_file : String
  pub dkim_domain : String
  pub dkim_selector : String

pub record DkimConfig : Type 0 where
  pub private_key : String
  pub domain : String
  pub selector : String

-- A SendGrid backend has its key, its sender and its time limit.
pub data Backend : Type 0 where
  send_grid : String → String → ℕ → Backend
  smtp : SmtpConfig → Backend
  dkim : DkimConfig → SmtpConfig → Backend

pub data BuildError : Type 0 where
  unknown_backend no_key_file bad_key not_raw : String → BuildError

-- `NewSendGrid` with its default time limit, and `NewSMTP`.
unfoldable pub base_backend : OutboundConfig → Result BuildError Backend
base_backend cfg =
    if cfg.backend == "sendgrid"
    then ok (
        send_grid cfg.send_grid_api_key cfg.default_from (
          if cfg.send_grid_timeout_secs == 0
          then 10 * second
          else cfg.send_grid_timeout_secs * second))
    else if cfg.backend == "smtp"
    then ok (
        smtp (record {
          host = cfg.smtp_host;
          username = cfg.smtp_username;
          password = cfg.smtp_password;
          default_from = cfg.default_from;
        }))
    else err (unknown_backend cfg.backend)

-- `NewDKIMSigningBackend`: the backend inside has to take a message as it is.
unfoldable pub new_dkim : (String → Bool) → DkimConfig → Backend → Result BuildError Backend
new_dkim parses cfg (send_grid k f t) = err (not_raw "sendgrid")
new_dkim parses cfg (dkim c s) = err (not_raw "dkim+smtp")
new_dkim parses cfg (smtp s) =
    if parses cfg.private_key then ok (dkim cfg s) else err (bad_key cfg.private_key)

abbrev pub with_key :
    (String → Bool) → OutboundConfig → Backend → Option String → Result BuildError Backend
with_key parses cfg base none = err (no_key_file cfg.dkim_private_key_file)
with_key parses cfg base (some pem) =
    new_dkim parses
      (record { private_key = pem; domain = cfg.dkim_domain; selector = cfg.dkim_selector }) base

-- All three settings of DKIM are there.
abbrev pub wants_dkim : OutboundConfig → Bool
wants_dkim cfg =
    not (cfg.dkim_private_key_file == "")
    && not (cfg.dkim_domain == "")
    && not (cfg.dkim_selector == "")

-- `buildRelayBackend`
unfoldable pub build_relay_backend :
    (String → Option String) → (String → Bool) → OutboundConfig → Result BuildError Backend
unfolding base_backend new_dkim
build_relay_backend read_file parses cfg = base_backend cfg >>= λ base.
    if wants_dkim cfg
    then with_key parses cfg base (read_file cfg.dkim_private_key_file)
    else ok base

-- `Send` of a backend that speaks SMTP; `sign` signs with the settings of the backend.
unfoldable pub send :
    (String → String → Bool)
    → (DkimConfig → String → Result String String)
    → Backend
    → String
    → List String
    → String
    → String
    → Map String String
    → Option (Result String MailCall)
unfolding smtp_send dkim_send
send fold sign (send_grid k f t) sender to subject body headers = none
send fold sign (smtp c) sender to subject body headers =
    some (ok (smtp_send fold c sender to subject body headers))
send fold sign (dkim d c) sender to subject body headers =
    some (dkim_send fold (sign d) c sender to subject body headers)
