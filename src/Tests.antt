-- ===== src/Tests.antt =====
-- The data of the tests: a store, domains, users and jobs. The children apply the theorems to it, one
-- child for each part of the program.
pub mod Store
pub mod Route
pub mod Deliver
pub mod Relay
pub mod Hooks
pub mod Session
pub mod Server
pub mod Sqlite
pub mod Reputation
pub mod Outgoing
pub mod Startup
pub mod Access
pub mod Agent
pub mod Listener
pub mod Cluster
use postbox.Common.{ℕ, String, Bool, true, false, none, List, [], ◌∷◌}
use postbox.Store.{Node, Domain, User, DeliveryJob, DeliveryStatus, pending, failed, delivered}
use postbox.MemStore.{MemStore, new}
use postbox.MemStore.Trace.{Write, node, domain, user, new_job, job_update, writes}

abbrev pub node_a : Node
node_a = record { id = "a"; private_key_b64 = "secret"; public_key_b64 = "public" }

abbrev pub home : Domain
home = record { name = "home.test"; node_id = "a"; is_default = true }

abbrev pub away : Domain
away = record { name = "away.test"; node_id = "b"; is_default = true }

abbrev pub ann : User
ann = record {
  email = "ann@home.test";
  type = "agent";
  public_key_b64 = "";
  metadata = ("endpoint", "https://ann.test/hook") ∷ [];
  created_at = 5;
}

abbrev pub job : DeliveryJob
job = record {
  message_id = "m1";
  recipient_id = "ann@home.test";
  endpoint_url = "https://ann.test/hook";
  status = pending;
  attempts = 0;
  max_attempts = 2;
  last_error = "";
  next_retry_at = 10;
  delivered_at = none;
  created_at = 10;
  updated_at = 10;
}

abbrev pub history : List Write
history = node node_a ∷ domain home ∷ domain away ∷ user ann ∷ new_job 10 job ∷ []

-- The store after these writes.
abbrev pub stored : MemStore
stored = writes history new
