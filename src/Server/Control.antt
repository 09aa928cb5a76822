-- ===== src/Server/Control.antt =====
-- internal/server/server.go: the RPCs that start the SMTP listener, over the controller's part for it. The
-- numbers of a request are not negative here.
pub mod Passwords
use postbox.Common.{ℕ, ◌*◌, String, Bool, false, none, Result, ok, err}
use postbox.Smtp.Listener.{Config}
use postbox.Controller.{
  World, ControlError, already_running, SmtpStart, smtp_start, start_smtp, start_with,
}
use postbox.Server.{Code, failed_precondition, internal}

pub record SmtpConfigRequest : Type 0 where
  pub port : ℕ
  pub domain : String
  pub allow_insecure_auth : Bool
  pub max_message_bytes : ℕ
  pub max_recipients : ℕ
  pub read_timeout_secs : ℕ
  pub write_timeout_secs : ℕ
  pub max_conns_per_sec : ℕ
  pub burst_conns : ℕ

abbrev second : ℕ
second = 1_000_000_000

-- `smtpConfigFromProto`; the other settings have their zero values.
unfoldable pub smtp_config_from_proto : SmtpConfigRequest → Config
smtp_config_from_proto req = record {
  port = req.port;
  bind_addr = "";
  domain = req.domain;
  allow_insecure_auth = req.allow_insecure_auth;
  max_message_bytes = req.max_message_bytes;
  max_recipients = req.max_recipients;
  max_connections = 0;
  read_timeout = req.read_timeout_secs * second;
  write_timeout = req.write_timeout_secs * second;
  relay_enabled = false;
  tls_cert_file = "";
  tls_key_file = "";
  auth_failure_hook = none;
  max_auth_failures_per_session = 0;
  check_spf = false;
  verify_dkim = false;
  max_conns_per_sec = req.max_conns_per_sec;
  burst_conns = req.burst_conns;
  max_conns_per_sec_per_ip = 0;
  burst_conns_per_ip = 0;
}

abbrev replied : World × Result ControlError (Unit {0}) → World × Result Code (Unit {0})
replied (w, ok x) = (w, ok tt)
replied (w, err already_running) = (w, err failed_precondition)
replied (w, err e) = (w, err internal)

-- `StartSMTP`, where the port is bound or not. The settings name no certificate to load.
unfoldable pub start_smtp_rpc : SmtpConfigRequest → Bool → World → World × Result Code (Unit {0})
unfolding smtp_config_from_proto
start_smtp_rpc req binds w =
    replied (start_with (start_smtp (smtp_start (smtp_config_from_proto req) false binds)) w)
