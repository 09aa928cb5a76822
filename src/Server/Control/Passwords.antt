-- ===== src/Server/Control/Passwords.antt =====
-- Whom a listener that the RPC starts lets in.
use postbox.Common.{string_Eq}
