-- ===== src/Plugin.antt =====
-- internal/plugin: the hooks that may reject a message before it is stored: filters of addresses and
-- attachments, the controls on SMTP senders with their lockout in Redis, the security agent, the policies on
-- e-mail authentication, the reputation of peers in CrowdSec and DNS block-lists, and the scanners of spam
-- and viruses.
pub mod AddressFilter
pub mod AttachmentFilter
pub mod SmtpSecurity
pub mod RedisLockout
pub mod SecurityAgent
pub mod EmailAuth
pub mod VerdictCache
pub mod CrowdSec
pub mod Dnsbl
pub mod SpamChecker
pub mod AntiVirus
