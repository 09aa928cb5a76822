-- ===== src/Registry.antt =====
-- internal/registry/registry.go: what a registry resolves, and the interfaces that routing uses.
pub mod Local
pub mod Redis
use postbox.Common.{String, Bool, Result}
use postbox.Common.Map.{Map}
use postbox.Store.{Error}

-- `EntityType` is a string; any text but the two constants is `other`.
pub data EntityType : Type 0 where
  domain user : EntityType
  other : String → EntityType

pub record Entity : Type 0 where
  pub type : EntityType
  pub name : String
  pub is_default : Bool
  pub user_type : String
  pub metadata : Map String String

-- `registry.ErrNotFound`, an error of the store, an unsupported entity type, and any other error of
-- a registry that is not modelled (a lost connection, say).
pub data RegistryError : Type 0 where
  not_found : RegistryError
  store_error : Error → RegistryError
  unsupported : String → RegistryError
  unavailable : String → RegistryError

-- `Registry.Lookup` and `NodeResolver.ResolveNode` as their callers see them.
abbrev pub Lookup : Type 0
Lookup = String → Result RegistryError String
