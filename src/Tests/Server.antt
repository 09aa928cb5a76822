-- ===== src/Tests/Server.antt =====
-- The theorems on the RPCs, on the store of the history.
use postbox.Common.{
  ok, true, ◌≡◌, refl, some, none, after_first, arith, eq_iff, [], string_Eq, pair_Eq,
}
use postbox.Common.Map.{get, put}
use postbox.MemStore.{new, save_domain, save_node, save_user, save_delivery_job, clear_default}
use postbox.MemStore.Trace.{writes, write}
use postbox.Registry.Local.{lookup}
use postbox.Server.{register_domain, remap_domain}
use postbox.Server.Discovery.{Node, discover}
use postbox.Server.Discovery.Misaddressed.{discover-remap_domain}
use postbox.Server.Ownership.{owner, owner-register_domain}
use postbox.Server.Accounts.{RegisterUserRequest, register_user, get_profile}
use postbox.Server.Accounts.Registered.{requested, get_profile-register_user}
use postbox.Tests.{stored, away}

-- Another node asks for a domain that is taken.
owner_example : owner "away.test" (register_domain "c" 9 "away.test" true stored).0 ≡ some "b"
unfolding writes write save_user get save_delivery_job save_domain save_node new put clear_default
owner_example = owner-register_domain "c" 9 "away.test" true "away.test" "b" stored refl

-- A user of the history registers again, with a key.
abbrev again : RegisterUserRequest
again = record { email = "ann@home.test"; type = "human"; public_key = "key"; metadata = [] }

profile_example :
    get_profile "a" "ann@home.test" (register_user "a" 9 again stored).0 ≡ ok (requested "a" again)
unfolding writes write save_user get save_delivery_job save_domain save_node new put
profile_example =
    get_profile-register_user "a" 9 again stored (λ e. cc) ((λ i. "ann@home.test"), tt)

abbrev here : Node
here = record { node_id = "a"; address = "10.0.0.1:9"; mode = "cluster"; public_key_b64 = "" }

-- The domain of the node "b" moves to the node "c".
misaddressed_example :
    discover here (lookup (remap_domain "away.test" "c" stored).0) none "eve@away.test"
    ≡ ok (record { node_id = "c"; address = "10.0.0.1:9"; mode = "cluster" })
unfolding writes write save_user get save_delivery_job save_domain save_node new put clear_default
    after_first
misaddressed_example =
    discover-remap_domain here "away.test" "eve@away.test" "c" away stored (λ e. cc) (λ e. cc)
      (λ e. cc) (λ e. ground (arith, eq_iff "c" "a")) refl refl refl
