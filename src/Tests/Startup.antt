-- ===== src/Tests/Startup.antt =====
-- The theorems on what the command builds, on two settings.
use postbox.Common.{String, true, false, some, [], ◌∷◌, ◌≡◌, refl, string_Eq, ◌==◌, Result, ok}
use postbox.Relay.Message.{◌<>◌, smtp_send}
use postbox.Serve.{PluginsConfig}
use postbox.Serve.Outbound.{OutboundConfig, DkimConfig, build_relay_backend, send}
use postbox.Serve.Outbound.Signing.{smtp_of, sends, outcome, sends-build_relay_backend}

-- The scanner of spam is on and has no endpoint.
abbrev plugins : PluginsConfig
plugins = record {
  crowd_sec = record {
    enabled = true;
    endpoint = "";
    api_key = "k";
    timeout_secs = 2;
    fail_open = true;
    cache_ttl_secs = 30;
  };
  dnsbl = record {
    enabled = false;
    zones = "a.example" ∷ [];
    cache_ttl_secs = 300;
    fail_open = true;
  };
  address_filter = record {
    enabled = true;
    mode = "allow";
    rules = record { id = "1"; pattern = ".*"; field = "sender" } ∷ [];
  };
  attachment = record {
    enabled = false;
    limits = record {
      max_count = 0;
      max_total_bytes = 0;
      max_single_bytes = 0;
      allowed_mimes = [];
      blocked_mimes = [];
    };
  };
  smtp_security = record {
    enabled = true;
    max_auth_failures_per_ip = 5;
    lockout_minutes = 15;
    envelope_spoof_check = true;
    allowed_sender_domains = [];
    blocked_sender_domains = [];
    max_subject_bytes = 0;
    require_authenticated_sender = false;
    redis_lockout = true;
  };
  email_auth = record {
    enabled = true;
    policies = record { spf_policy = "reject"; dkim_policy = "off"; dmarc_policy = "off" };
  };
  spam_checker = record {
    enabled = true;
    endpoint = "";
    threshold = 5;
    tag_only = false;
    timeout_secs = 5;
  };
  anti_virus = record { enabled = false; endpoint = ""; timeout_secs = 30; fail_open = false };
  security_agent = record {
    enabled = false;
    max_recipients = 0;
    max_body_bytes = 0;
    rate_per_sender = 0;
    burst_per_sender = 0;
  };
}

abbrev outbound : OutboundConfig
outbound = record {
  backend = "smtp";
  default_from = "noreply@home.test";
  smtp_host = "smtp.test:587";
  smtp_username = "";
  smtp_password = "";
  send_grid_api_key = "";
  send_grid_timeout_secs = 0;
  dkim_private_key_file = "/etc/dkim.pem";
  dkim_domain = "home.test";
  dkim_selector = "s1";
}

abbrev put_first : DkimConfig → String → Result String String
put_first d raw = ok ("DKIM-Signature: x" <> raw)

outbound_example :
    sends
      (build_relay_backend (λ path. some "pem") (λ pem. true) outbound)
      (λ b. send (λ a b. a == b) put_first b "" ("bob@away.test" ∷ []) "hello" "hi" [])
    ≡ outcome outbound
        (λ pem. true)
        (some "pem")
        (λ d raw. ok "DKIM-Signature: x")
        (smtp_send (λ a b. a == b) (smtp_of outbound) "" ("bob@away.test" ∷ []) "hello" "hi" [])
outbound_example =
    sends-build_relay_backend (λ a b. a == b) put_first (λ d raw. ok "DKIM-Signature: x")
      (λ path. some "pem") (λ pem. true) outbound "" ("bob@away.test" ∷ []) "hello" "hi" []
      (λ d raw. refl) refl
