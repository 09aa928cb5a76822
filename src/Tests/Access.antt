-- ===== src/Tests/Access.antt =====
-- The theorem on the guard, on one call.
use postbox.Common.{
  String, false, Option, none, List, ◌||◌, some, [], ◌∷◌, ◌≡◌, refl, string_Eq, ◌==◌, cut_prefix,
}
use postbox.Guard.{authenticate}
use postbox.Guard.Tokens.{accepts, presented, accepts-authenticate}
use postbox.Relay.Message.{◌<>◌}

abbrev token : String
token = "s3cret"

abbrev values : Option (List String)
values = some ("Bearer s3cret" ∷ [])

guard_example :
    accepts (authenticate token values)
    ≡ elim (presented values) [ none ↦ false | some v ↦ v == token || v == "Bearer " <> token ]
unfolding cut_prefix
guard_example = accepts-authenticate token values refl
