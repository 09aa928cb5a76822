-- ===== src/Guard.antt =====
-- internal/guard/bearer.go: the guard of the RPCs by one shared token. The values of the metadata key are
-- an argument; `none` is a call with no metadata.
pub mod Tokens
use postbox.Common.{
  String, Bool, Option, none, some, List, [], ◌∷◌, string_Eq, ◌==◌, if◌then◌else◌, Result, ok, err,
  trim_prefix,
}

pub data AuthError : Type 0 where
  missing_metadata header_required invalid_token : AuthError

-- `NewBearer`; `none` is its panic.
unfoldable pub new_bearer : String → Option String
new_bearer token = if token == "" then none else some token

abbrev pub check_values : String → List String → Result AuthError (Unit {0})
check_values token [] = err header_required
check_values token (v ∷ vs) = if trim_prefix v "Bearer " == token then ok tt else err invalid_token

-- `Authenticate`
unfoldable pub authenticate : String → Option (List String) → Result AuthError (Unit {0})
unfolding trim_prefix
authenticate token none = err missing_metadata
authenticate token (some vals) = check_values token vals
