-- ===== src/Serve/Order.antt =====
-- Which plugins run, and in which order.
use postbox.Common.{
  String, Bool, true, false, ◌&&◌, not, Option, none, some, List, [], ◌∷◌, string_Eq, ◌==◌, ltb,
  if◌then◌else◌, length,
}
use postbox.Serve.{
  PluginsConfig, Plugin, crowd_sec_plugin, dnsbl_plugin, address_filter_plugin, attachment_plugin,
  smtp_security_plugin, email_auth_plugin, spam_checker_plugin, anti_virus_plugin,
  security_agent_plugin, appended, make_crowd_sec, make_dnsbl, make_address_filter,
  make_smtp_security, make_spam_checker, make_anti_virus, make_security_agent,
}

-- The name that `buildPlugins` gives a plugin.
abbrev pub name_of : Plugin → String
name_of (crowd_sec_plugin e k t c) = "crowdsec"
name_of (dnsbl_plugin c) = "dnsbl"
name_of (address_filter_plugin m rs) = "address-filter"
name_of (attachment_plugin c) = "attachment-filter"
name_of (smtp_security_plugin r c) = "smtp-security"
name_of (email_auth_plugin c) = "email-auth"
name_of (spam_checker_plugin e t o s) = "spam-checker"
name_of (anti_virus_plugin e t o) = "antivirus"
name_of (security_agent_plugin c) = "security-agent"

unfoldable pub names : List Plugin → List String
names [] = []
names (p ∷ ps) = name_of p ∷ names ps

-- The names that are on, in the order of the list.
abbrev pub in_order : List (Bool × String) → List String
in_order [] = []
in_order ((on, name) ∷ rest) = if on then name ∷ in_order rest else in_order rest

abbrev is_smtp_security : Plugin → Bool
is_smtp_security (smtp_security_plugin r c) = true
is_smtp_security p = false

-- The plugin on SMTP senders among the plugins.
unfoldable pub smtp_security_of : List Plugin → Option Plugin
smtp_security_of [] = none
smtp_security_of (p ∷ ps) = if is_smtp_security p then some p else smtp_security_of ps

-- The steps of `buildPlugins`, each with its test.
abbrev assemble : List (Bool × Plugin) → List Plugin → List Plugin
assemble [] ps = ps
assemble ((on, p) ∷ rest) ps = assemble rest (appended on p ps)

abbrev labels : List (Bool × Plugin) → List (Bool × String)
labels [] = []
labels ((on, p) ∷ rest) = (on, name_of p) ∷ labels rest

abbrev first_on : List (Bool × Plugin) → Option Plugin
first_on [] = none
first_on ((on, p) ∷ rest) = if is_smtp_security p && on then some p else first_on rest

abbrev or_else : Option Plugin → Option Plugin → Option Plugin
or_else none q = q
or_else (some p) q = some p

-- The calls of `buildPlugins`, in their order.
abbrev steps : PluginsConfig → Bool → List (Bool × Plugin)
steps cfg has_redis =
    (cfg.crowd_sec.enabled, make_crowd_sec cfg.crowd_sec)
    ∷ (cfg.dnsbl.enabled && ltb 0 (length cfg.dnsbl.zones), make_dnsbl cfg.dnsbl)
    ∷ (cfg.address_filter.enabled, make_address_filter cfg.address_filter)
    ∷ (cfg.attachment.enabled, attachment_plugin cfg.attachment.limits)
    ∷ (cfg.smtp_security.enabled, make_smtp_security has_redis cfg.smtp_security)
    ∷ (cfg.email_auth.enabled, email_auth_plugin cfg.email_auth.policies)
    ∷ (
      cfg.spam_checker.enabled && not (cfg.spam_checker.endpoint == ""),
      make_spam_checker cfg.spam_checker,
    )
    ∷ (
      cfg.anti_virus.enabled && not (cfg.anti_virus.endpoint == ""),
      make_anti_virus cfg.anti_virus,
    )
    ∷ (cfg.security_agent.enabled, make_security_agent cfg.security_agent)
    ∷ []
