-- ===== src/Serve.antt =====
-- cmd/serve.go: what the command builds from the settings of cmd/config.go, the plugins and the outbound
-- backend. Numbers of the settings are not negative here, and a threshold or a rate is a whole number.
pub mod Order
pub mod Outbound
use postbox.Common.{
  ℕ, ◌*◌, String, Bool, true, false, ◌&&◌, not, Option, none, some, List, [], ◌∷◌, ◌++◌, nat_Eq,
  string_Eq, ◌==◌, ltb, if◌then◌else◌, length, Result, ok, err, ◌>>=◌,
}
use postbox.Plugin.CrowdSec.{CrowdSecConfig}
use postbox.Plugin.Dnsbl.{DnsblConfig}
use postbox.Plugin.AddressFilter.{
  FilterMode, mode_block, mode_allow, AddressRule, field_sender, field_recipients,
}
use postbox.Plugin.AttachmentFilter.{FilterConfig}
use postbox.Plugin.SmtpSecurity.{SecurityConfig}
use postbox.Plugin.EmailAuth.{AuthConfig}
use postbox.Plugin.SecurityAgent.{AgentConfig}
use postbox.Relay.Message.{SmtpConfig}

abbrev second : ℕ
second = 1_000_000_000

pub record CrowdSecSettings : Type 0 where
  pub enabled : Bool
  pub endpoint : String
  pub api_key : String
  pub timeout_secs : ℕ
  pub fail_open : Bool
  pub cache_ttl_secs : ℕ

pub record DnsblSettings : Type 0 where
  pub enabled : Bool
  pub zones : List String
  pub cache_ttl_secs : ℕ
  pub fail_open : Bool

pub record AddressRuleConfig : Type 0 where
  pub id : String
  pub pattern : String
  pub field : String

pub record AddressFilterSettings : Type 0 where
  pub enabled : Bool
  pub mode : String
  pub rules : List AddressRuleConfig

-- The other fields are those of the plugin's own settings.
pub record AttachmentSettings : Type 0 where
  pub enabled : Bool
  pub limits : FilterConfig

pub record SmtpSecuritySettings : Type 0 where
  pub enabled : Bool
  pub max_auth_failures_per_ip : ℕ
  pub lockout_minutes : ℕ
  pub envelope_spoof_check : Bool
  pub allowed_sender_domains : List String
  pub blocked_sender_domains : List String
  pub max_subject_bytes : ℕ
  pub require_authenticated_sender : Bool
  pub redis_lockout : Bool

pub record EmailAuthSettings : Type 0 where
  pub enabled : Bool
  pub policies : AuthConfig

pub record SpamCheckerSettings : Type 0 where
  pub enabled : Bool
  pub endpoint : String
  pub threshold : ℕ
  pub tag_only : Bool
  pub timeout_secs : ℕ

pub record AntiVirusSettings : Type 0 where
  pub enabled : Bool
  pub endpoint : String
  pub timeout_secs : ℕ
  pub fail_open : Bool

pub record SecurityAgentSettings : Type 0 where
  pub enabled : Bool
  pub max_recipients : ℕ
  pub max_body_bytes : ℕ
  pub rate_per_sender : ℕ
  pub burst_per_sender : ℕ

pub record PluginsConfig : Type 0 where
  pub crowd_sec : CrowdSecSettings
  pub dnsbl : DnsblSettings
  pub address_filter : AddressFilterSettings
  pub attachment : AttachmentSettings
  pub smtp_security : SmtpSecuritySettings
  pub email_auth : EmailAuthSettings
  pub spam_checker : SpamCheckerSettings
  pub anti_virus : AntiVirusSettings
  pub security_agent : SecurityAgentSettings

-- A plugin with the settings that it is made with. Texts are endpoints and keys, numbers are time limits.
pub data Plugin : Type 0 where
  crowd_sec_plugin : String → String → ℕ → CrowdSecConfig → Plugin
  dnsbl_plugin : DnsblConfig → Plugin
  address_filter_plugin : FilterMode → List AddressRule → Plugin
  attachment_plugin : FilterConfig → Plugin
  smtp_security_plugin : Bool → SecurityConfig → Plugin
  email_auth_plugin : AuthConfig → Plugin
  spam_checker_plugin : String → ℕ → Bool → ℕ → Plugin
  anti_virus_plugin : String → ℕ → Bool → Plugin
  security_agent_plugin : AgentConfig → Plugin

-- `FieldAll`
abbrev field_all : ℕ
field_all = 3

abbrev pub field_of : String → ℕ
field_of f =
    if f == "sender"
    then field_sender
    else if f == "recipients"
    then field_recipients
    else field_all

-- `addressRulesFromConfig`
unfoldable pub address_rules_from_config : List AddressRuleConfig → List AddressRule
address_rules_from_config [] = []
address_rules_from_config (r ∷ rs) =
    record { id = r.id; pattern = r.pattern; field = field_of r.field }
    ∷ address_rules_from_config rs

-- `append` under an `if`.
abbrev pub appended : Bool → Plugin → List Plugin → List Plugin
appended enabled p ps = if enabled then ps ++ p ∷ [] else ps

abbrev pub make_crowd_sec : CrowdSecSettings → Plugin
make_crowd_sec c =
    crowd_sec_plugin c.endpoint c.api_key (c.timeout_secs * second)
      (record { fail_open = c.fail_open; cache_ttl = c.cache_ttl_secs * second })

abbrev pub make_dnsbl : DnsblSettings → Plugin
make_dnsbl c =
    dnsbl_plugin
      (record { zones = c.zones; cache_ttl = c.cache_ttl_secs * second; fail_open = c.fail_open })

abbrev pub make_address_filter : AddressFilterSettings → Plugin
make_address_filter c =
    address_filter_plugin (if c.mode == "allow" then mode_allow else mode_block)
      (address_rules_from_config c.rules)

-- The store of the lockouts is the one in Redis where a client is there and it is asked for.
abbrev pub make_smtp_security : Bool → SmtpSecuritySettings → Plugin
make_smtp_security has_redis c = smtp_security_plugin (c.redis_lockout && has_redis) (record {
  max_auth_failures_per_ip = c.max_auth_failures_per_ip;
  lockout_duration = c.lockout_minutes * 60 * second;
  ip_lookup_ttl = 0;
  envelope_spoof_check = c.envelope_spoof_check;
  allowed_sender_domains = c.allowed_sender_domains;
  blocked_sender_domains = c.blocked_sender_domains;
  max_subject_bytes = c.max_subject_bytes;
  require_authenticated_sender = c.require_authenticated_sender;
})

abbrev pub make_spam_checker : SpamCheckerSettings → Plugin
make_spam_checker c =
    spam_checker_plugin c.endpoint c.threshold c.tag_only (c.timeout_secs * second)

abbrev pub make_anti_virus : AntiVirusSettings → Plugin
make_anti_virus c = anti_virus_plugin c.endpoint (c.timeout_secs * second) c.fail_open

abbrev pub make_security_agent : SecurityAgentSettings → Plugin
make_security_agent c = security_agent_plugin (record {
  max_recipients = c.max_recipients;
  max_body_bytes = c.max_body_bytes;
  rate_per_sender = c.rate_per_sender;
  burst_per_sender = c.burst_per_sender;
  sender_ttl = 0;
  blocked_extensions = none;
})

-- `buildPlugins`, with the hook for failed logins; `has_redis` tells whether there is a client.
unfoldable pub build_plugins : PluginsConfig → Bool → List Plugin × Option Plugin
unfolding address_rules_from_config
build_plugins cfg has_redis =
    let ss = make_smtp_security has_redis cfg.smtp_security in
    let ps1 = appended cfg.crowd_sec.enabled (make_crowd_sec cfg.crowd_sec) [] in
    let ps2 =
      appended (cfg.dnsbl.enabled && ltb 0 (length cfg.dnsbl.zones)) (make_dnsbl cfg.dnsbl) ps1 in
    let ps3 = appended cfg.address_filter.enabled (make_address_filter cfg.address_filter) ps2 in
    let ps4 = appended cfg.attachment.enabled (attachment_plugin cfg.attachment.limits) ps3 in
    let ps5 = appended cfg.smtp_security.enabled ss ps4 in
    let ps6 = appended cfg.email_auth.enabled (email_auth_plugin cfg.email_auth.policies) ps5 in
    let ps7 =
      appended (cfg.spam_checker.enabled && not (cfg.spam_checker.endpoint == ""))
        (make_spam_checker cfg.spam_checker) ps6 in
    let ps8 =
      appended (cfg.anti_virus.enabled && not (cfg.anti_virus.endpoint == ""))
        (make_anti_virus cfg.anti_virus) ps7 in
    let ps9 = appended cfg.security_agent.enabled (make_security_agent cfg.security_agent) ps8 in
    (ps9, if cfg.smtp_security.enabled then some ss else none)
