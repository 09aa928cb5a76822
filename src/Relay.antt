-- ===== src/Relay.antt =====
-- internal/relay: outbound relay. The children model the fallback of the registry (Fallback), the delivery
-- queue with its retries (Queue), the message that goes out and the backends over SMTP (Message), and the
-- relay's own server (Server).
pub mod Fallback
pub mod Queue
pub mod Message
pub mod Server
