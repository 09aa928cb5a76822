-- ===== src/Forwarder.antt =====
-- internal/forwarder/forwarder.go: an intercepted SendMessage is split over the nodes that own its
-- recipients. Lookup and address resolution are parameters, as in the source (interfaces), and so
-- is what a remote node answers. The pool of connections is the list of addresses with one.
pub mod Delivery
pub mod Connections
pub mod Routing
use postbox.Common.{
  ℕ, String, Bool, true, false, ◌||◌, Option, none, some, List, [], ◌∷◌, ◌++◌, string_Eq, ◌==◌,
  if◌then◌else◌, Result, ok, err,
}
use postbox.Common.Map.{Map, get, put, remove}
use postbox.Registry.{RegistryError, Lookup}

-- The answer to a forwarded SendMessage: a response, the status code Unavailable, another error.
pub data Answer : Type 0 where
  accepted unavailable refused : Answer

-- The remote side: whether a client for an address can be made, and what the node there answers to
-- a message for some recipients.
pub record Network : Type 0 where
  pub can_dial : String → Bool
  pub answer : String → List String → Answer

-- `localRecipients` and `remoteByAddr`.
pub record Split : Type 0 where
  pub here : List String
  pub remote : Map String (List String)

abbrev or_nil : Option (List String) → List String
or_nil none = []
or_nil (some rs) = rs

-- `m[addr] = append(m[addr], r)`
unfoldable pub push : String → String → Map String (List String) → Map String (List String)
push addr r m = put addr (or_nil (get addr m) ++ r ∷ []) m

module _ (node_id : String) (lookup resolve : Lookup) where
  -- Where a recipient goes: to this node (`none`) or to a remote address.
  unfoldable pub target_of : String → Option String
  target_of r = elim (lookup r) [
    | err e ↦ none
    | ok n ↦ if n == node_id then none else elim (resolve n) [ err e ↦ none | ok addr ↦ some addr ]
  ]

  -- The body of the loop over the recipients.
  unfoldable pub classify_one : String → Split → Split
  classify_one r s = elim (target_of r) [
    | none ↦ record s { here = s.here ++ r ∷ [] }
    | some addr ↦ record s { remote = push addr r s.remote }
  ]

  unfoldable pub classify : List String → Split → Split
  classify [] s = s
  classify (r ∷ rs) s = classify rs (classify_one r s)

abbrev pub Pool : Type 0
Pool = Map String (Unit {0})

-- `dial`: a pooled connection, or a new one that joins the pool; `none` is an error.
unfoldable pub dial : Network → String → Pool → Option Pool
dial net addr pool = elim (get addr pool) [
  | some _ ↦ some pool
  | none ↦ if net.can_dial addr then some (put addr tt pool) else none
]

-- `forward`: whether the remote node took the message, and the pool after it.
unfoldable pub forward : Network → String → List String → Pool → Pool × Bool
forward net addr rs pool = elim (dial net addr pool) [
  | none ↦ (pool, false)
  | some pool' ↦ elim (net.answer addr rs) [
    | accepted ↦ (pool', true)
    | unavailable ↦ (remove addr pool', false)
    | refused ↦ (pool', false)
  ]
]

-- What came of the loop over the remote addresses.
pub record Sent : Type 0 where
  pub pool : Pool
  pub here : List String
  pub forwarded : Map String (List String)

unfoldable pub forward_one : Network → String → List String → Sent → Sent
forward_one net addr rs t =
    let (pool', done) = forward net addr rs t.pool in
    if done
    then record t { pool = pool'; forwarded = (addr, rs) ∷ t.forwarded }
    else record t { pool = pool'; here = t.here ++ rs }

unfoldable pub forward_all : Network → Map String (List String) → Sent → Sent
forward_all net [] t = t
forward_all net ((addr, rs) ∷ m) t = forward_all net m (forward_one net addr rs t)

-- `handle`: the state of the pool, the recipients that were forwarded, and those for which the local
-- handler is called; `none` where it is not called and a synthetic response is returned.
pub record Handled : Type 0 where
  pub pool : Pool
  pub forwarded : Map String (List String)
  pub local_call : Option (List String)

unfoldable pub handle : String → Lookup → Lookup → Network → List String → Pool → Handled
handle node_id lookup resolve net recipients pool =
    let split = classify node_id lookup resolve recipients (record { here = []; remote = [] }) in
    let t =
      forward_all net split.remote (record { pool = pool; here = split.here; forwarded = [] }) in
    record {
      pool = t.pool;
      forwarded = t.forwarded;
      local_call = elim t.here [ [] ↦ none | r ∷ rs ↦ some (r ∷ rs) ];
    }

-- `Close`: the loop over the pool, which takes each connection out of it.
unfoldable pub close_each : Pool → Pool → Pool
close_each [] pool = pool
close_each ((addr, c) ∷ rest) pool = close_each rest (remove addr pool)

unfoldable pub close : Pool → Pool
unfolding close_each
close pool = close_each pool pool
