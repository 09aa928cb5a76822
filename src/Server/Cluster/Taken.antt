-- ===== src/Server/Cluster/Taken.antt =====
-- Whose a domain is in a cluster after its registration.
use postbox.Common.{string_Eq}
use postbox.MemStore.{MemStore}
use postbox.Registry.Redis.{Redis}
