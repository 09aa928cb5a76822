-- ===== src/Smtp/Listener.antt =====
-- internal/smtp/server.go: the settings of the SMTP listener, the limits on new connections, and the
-- listener's start. The token bucket of golang.org/x/time/rate is a parameter, as are the loading of a
-- certificate and the binding of a port. Numbers of settings are not negative here.
pub mod Limits
use postbox.Common.{
  ℕ, ◌*◌, ◌^◌, String, Bool, true, false, ◌&&◌, not, Option, none, some, nat_Eq, string_Eq, ◌==◌,
  ltb, if◌then◌else◌, Result, ok, err,
}
use postbox.Common.Map.{Map, get, put}
use postbox.Plugin.SmtpSecurity.{AddressLib, SecurityConfig}
use postbox.Smtp.{Server, Session, new_session, SmtpError, code}

pub record Config : Type 0 where
  pub port : ℕ
  pub bind_addr : String
  pub domain : String
  pub allow_insecure_auth : Bool
  pub max_message_bytes : ℕ
  pub max_recipients : ℕ
  pub max_connections : ℕ
  pub read_timeout : ℕ
  pub write_timeout : ℕ
  pub relay_enabled : Bool
  pub tls_cert_file : String
  pub tls_key_file : String
  pub auth_failure_hook : Option SecurityConfig
  pub max_auth_failures_per_session : ℕ
  pub check_spf : Bool
  pub verify_dkim : Bool
  pub max_conns_per_sec : ℕ
  pub burst_conns : ℕ
  pub max_conns_per_sec_per_ip : ℕ
  pub burst_conns_per_ip : ℕ

abbrev second : ℕ
second = 1_000_000_000

abbrev pub or_default : ℕ → ℕ → ℕ
or_default n d = if n == 0 then d else n

-- `applyDefaults`
unfoldable pub apply_defaults : Config → Config
apply_defaults c = record c {
  port = or_default c.port 2525;
  domain = if c.domain == "" then "localhost" else c.domain;
  max_message_bytes = or_default c.max_message_bytes (10 * 2 ^ 20);
  max_recipients = or_default c.max_recipients 50;
  max_connections = or_default c.max_connections 1000;
  read_timeout = or_default c.read_timeout (300 * second);
  write_timeout = or_default c.write_timeout (60 * second);
  burst_conns = if ltb 0 c.max_conns_per_sec && c.burst_conns == 0 then 10 else c.burst_conns;
  burst_conns_per_ip =
      if ltb 0 c.max_conns_per_sec_per_ip && c.burst_conns_per_ip == 0
      then 5
      else c.burst_conns_per_ip;
  max_auth_failures_per_session = or_default c.max_auth_failures_per_session 5;
}

-- What a session reads of the server that `NewWithValidator` makes; `New` passes no validator.
unfoldable pub new_with_validator :
    Config → Option (String → Bool) → Option (String → String → Bool) → Server
unfolding apply_defaults
new_with_validator cfg users validator =
    let c = apply_defaults cfg in
    record {
      relay_enabled = c.relay_enabled;
      check_spf = c.check_spf;
      max_auth_failures_per_session = c.max_auth_failures_per_session;
      users = users;
      validator = validator;
      hook = c.auth_failure_hook;
    }

unfoldable pub new : Config → Option (String → Bool) → Server
unfolding new_with_validator
new cfg users = new_with_validator cfg users none

-- The limiters of a server: the one for all connections, where there is one, and those of addresses.
pub record Limiters (Bucket : Type 0) : Type 0 where
  pub limiter : Option Bucket
  pub ip_limiters : Map String Bucket

module _ {Bucket : Type 0} (lib : AddressLib) (allow : ℕ → Bucket → Bucket × Bool)
    (full : Bucket) where
  -- The limiter for all connections.
  abbrev pub take_any : ℕ → Option Bucket → Option Bucket × Bool
  take_any now none = (none, true)
  take_any now (some b) = let (b', allowed) = allow now b in (some b', allowed)

  -- The address of a peer; all of its text where it has no host.
  unfoldable pub peer_ip : String → String
  peer_ip remote_addr = elim (lib.split_host remote_addr) [
    | none ↦ remote_addr
    | some ip ↦ if ip == "" then remote_addr else ip
  ]

  -- `LoadOrStore`, and `Allow` of the limiter.
  unfoldable pub take_ip : ℕ → String → Map String Bucket → Map String Bucket × Bool
  take_ip now ip m =
      let (b', allowed) = allow now (elim (get ip m) [ none ↦ full | some b ↦ b ]) in
      (put ip b' m, allowed)

  abbrev limit_peer : Config → ℕ → String → Limiters Bucket → Limiters Bucket × Bool
  limit_peer cfg now remote_addr l =
      let (m, allowed) = take_ip now (peer_ip remote_addr) l.ip_limiters in
      if ltb 0 cfg.max_conns_per_sec_per_ip
      then (record l { ip_limiters = m }, allowed)
      else (l, true)

  -- The peer of a connection, where it is known, asks for a token.
  unfoldable pub admit : Config → ℕ → Option String → Limiters Bucket → Limiters Bucket × Bool
  unfolding take_ip peer_ip
  admit cfg now conn l =
      let (any, allowed) = take_any now l.limiter in
      let l' = record l { limiter = any } in
      if allowed
      then elim conn [ none ↦ (l', true) | some remote_addr ↦ limit_peer cfg now remote_addr l' ]
      else (l', false)

  -- `NewSession`, of a connection with its remote address.
  unfoldable pub open_session :
      Config → ℕ → Option String → Limiters Bucket → Limiters Bucket × Result SmtpError Session
  unfolding admit
  open_session cfg now conn l =
      let (l', allowed) = admit cfg now conn l in
      (
        l',
        if allowed
            then ok (new_session (elim conn [ none ↦ "" | some remote_addr ↦ remote_addr ]))
            else err (code 421),
      )
