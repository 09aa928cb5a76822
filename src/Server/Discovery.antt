-- ===== src/Server/Discovery.antt =====
-- internal/server/server.go: what the RPCs tell of nodes, domains and the listener. The registry's lookup
-- and, where it has one, its `ResolveNode` are arguments.
pub mod Misaddressed
use postbox.Common.{
  ℕ, ◌%◌, ◌^◌, String, Bool, false, Option, none, some, string_Eq, ◌==◌, if◌then◌else◌, Result, ok,
  err,
}
use postbox.Store.{Error}
use postbox.Smtp.Listener.{Config}
use postbox.Controller.{World, nth, Stopper}
use postbox.Registry.{RegistryError, not_found, store_error, Lookup}
use postbox.Server.{Code, invalid_argument, unknown, failed_precondition, internal}

-- The part of the controller that does not change.
pub record Node : Type 0 where
  pub node_id : String
  pub address : String
  pub mode : String
  pub public_key_b64 : String

pub record NodeInfo : Type 0 where
  pub node_id : String
  pub address : String
  pub mode : String

-- `ResolveNode`, if the registry has it; a failure of it is `none`.
abbrev pub Resolver : Type 0
Resolver = Option (String → Option String)

abbrev pub resolved : Resolver → String → String → String
resolved none node_id own = own
resolved (some resolve) node_id own = elim (resolve node_id) [ some addr ↦ addr | none ↦ own ]

-- The code of an error of the lookup.
abbrev pub lookup_code : RegistryError → Code
lookup_code not_found = unknown
lookup_code (store_error Error.not_found) = unknown
lookup_code (store_error (Error.invalid m)) = internal
lookup_code (RegistryError.unsupported t) = internal
lookup_code (RegistryError.unavailable m) = internal

abbrev pub located : Node → Resolver → Result RegistryError String → Result Code NodeInfo
located node resolver (err e) = err (lookup_code e)
located node resolver (ok id) = ok (record {
  node_id = id;
  address = if id == node.node_id then node.address else resolved resolver id node.address;
  mode = node.mode;
})

-- `Discover`
unfoldable pub discover : Node → Lookup → Resolver → String → Result Code NodeInfo
discover node lookup resolver target =
    if target == "" then err invalid_argument else located node resolver (lookup target)

-- `StopSMTP`: what the RPC replies once its call of the controller returns.
abbrev pub stop_reply : Stopper → Option (Result Code (Unit {0}))
stop_reply (Stopper.stopped i) = some (ok tt)
stop_reply Stopper.refused = some (err failed_precondition)
stop_reply p = none

-- The port is an int32.
pub record SmtpStatus : Type 0 where
  pub running : Bool
  pub port : ℕ
  pub domain : String

abbrev pub status_of : (ℕ → Config) → World → Option ℕ → SmtpStatus
status_of settings w none = record { running = false; port = 0; domain = "" }
status_of settings w (some i) = record {
  running = (nth i w.listeners).running;
  port = (settings i).port % 2 ^ 32;
  domain = (settings i).domain;
}

-- `GetSMTPStatus`, with the settings of the listeners by their numbers.
unfoldable pub get_smtp_status : (ℕ → Config) → World → SmtpStatus
get_smtp_status settings w = status_of settings w w.current

pub record NodePublicKey : Type 0 where
  pub public_key : String
  pub node_id : String
  pub key_id : String

-- `GetNodePublicKey`
unfoldable pub get_node_public_key : Node → NodePublicKey
get_node_public_key node = record {
  public_key = node.public_key_b64;
  node_id = node.node_id;
  key_id = "v1";
}
