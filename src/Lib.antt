-- ===== src/Lib.antt =====
-- Postbox: a mail node for people and agents. A node keeps nodes, domains, users and delivery jobs in a
-- store; a registry maps a target to the node that owns it; the forwarder splits a message over the
-- nodes of its recipients; plugins may reject a message before it is stored; a webhook dispatcher posts
-- received messages to the endpoints of agents; a relay sends mail to unknown recipients through a
-- queue; SMTP and LMTP listeners take mail from outside, and a controller starts and stops them.
--
-- The files and the code:
-- Store                 internal/store/store.go: the records, `UserMatchesFilters`, `IsValidMetaKey`.
-- MemStore              internal/store/memstore/memstore.go: a method takes the store and returns it.
-- Sqlite, Sqlite/Users, Sqlite/Jobs
--                       internal/store/sqlite/store.go: an SQL statement is a function on tables.
-- Registry, Registry/Local, Registry/Redis
--                       internal/registry/registry.go, internal/registry/local/registry.go and
--                       internal/registry/redis/registry.go.
-- Forwarder             internal/forwarder/forwarder.go: `handle`, `forward`, `dial`, `evict`, `Close`.
-- Webhook/Dispatcher    internal/webhook/dispatcher.go: `onMessageReceived`, `attempt`, `fail`, workers, sweeper.
-- Webhook/Retry, Webhook/Signer, Webhook/Payload
--                       internal/webhook/retry.go, signer.go and payload.go.
-- Relay/Queue           internal/relay/queue.go: `Enqueue`, `worker`, `process`, `Stop`.
-- Relay/Fallback        internal/relay/registry.go.
-- Relay/Message         internal/relay/smtp.go and internal/relay/dkim.go.
-- Relay/Server          internal/relay/relay.go: `SendMessage`.
-- Plugin/AddressFilter, Plugin/AttachmentFilter, Plugin/SmtpSecurity, Plugin/RedisLockout,
-- Plugin/EmailAuth, Plugin/SecurityAgent, Plugin/CrowdSec, Plugin/Dnsbl,
-- Plugin/SpamChecker, Plugin/AntiVirus
--                       internal/plugin/address_filter.go, attachment_filter.go, smtp_security.go,
--                       redis_lockout.go, email_auth.go, security_agent.go, crowdsec.go, dnsbl.go,
--                       spam_checker.go and antivirus.go. Plugin/VerdictCache is the cache of
--                       CrowdSec and Dnsbl.
-- NodeKey               internal/nodekey/nodekey.go, and its call in internal/server/node.go.
-- Smtp, Smtp/Request    internal/smtp/server.go: the session, and the request that `Data` makes.
-- Smtp/Listener         internal/smtp/server.go: settings, `NewSession` and its limits.
-- Smtp/Lmtp             internal/smtp/lmtp.go: the session and its statuses.
-- Controller            internal/server/node.go: starts and stops of the listeners, with `Start` and `Stop`
--                       of internal/smtp.
-- Server, Server/Accounts, Server/Cluster, Server/Control, Server/Discovery
--                       internal/server/server.go: the RPCs on domains, on users and jobs, on domains in
--                       a cluster, on the listener, and on where a target lives.
-- Guard                 internal/guard/bearer.go.
-- Serve                 cmd/serve.go and cmd/config.go: `buildPlugins`.
-- Serve/Outbound        cmd/serve.go: `buildRelayBackend`.
-- Common                shared notation, lists, texts, association lists, sorting, results.
-- Tests                 the theorems applied to concrete data.
--
-- A Go map is an association list, whose order stands for the order of `range`. A method that holds its
-- mutex is one step; goroutines are lists of steps in any order (Relay/Queue, Webhook/Dispatcher,
-- Controller), where a step makes at most one call of the store or one operation on a channel. Times are natural numbers and the clock is an argument. Integers that may wrap are written
-- with `%`: the sizes of attachments, the counter of failures, the shift of the backoff. Loops are
-- structural recursion; the scan of an attachment's name has one round of fuel more than characters, and
-- is shown to end; a worker that drains the relay's queue is given as many rounds as the buffered jobs may
-- have attempts; and the reader of an outbound message is given six lines more than it has extra headers.
--
-- Regular expressions, MIME and address parsing, Ed25519, base64, JSON, DNS, HTTP, gRPC, Redis, token
-- buckets, DKIM signatures and the mailbox library are parameters or arguments. Not modelled: the store
-- over PostgreSQL (internal/store/sqlstore/store.go), whose statements are those of SQLite in another
-- dialect; the requests to SendGrid; logging and metrics; the command line and the reading of the
-- configuration, which are flags and calls of libraries.
pub mod Common
pub mod Store
pub mod MemStore
pub mod Sqlite
pub mod Registry
pub mod Relay
pub mod Controller
pub mod Forwarder
pub mod Webhook
pub mod Plugin
pub mod NodeKey
pub mod Smtp
pub mod Server
pub mod Serve
pub mod Guard
pub mod Tests
