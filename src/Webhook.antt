-- ===== src/Webhook.antt =====
-- internal/webhook: signed HTTP delivery of received messages. The children model the retry schedule
-- (Retry), the signatures (Signer), the payload (Payload) and the dispatcher with its queue, its
-- workers and its sweeper (Dispatcher).
pub mod Retry
pub mod Signer
pub mod Payload
pub mod Dispatcher
