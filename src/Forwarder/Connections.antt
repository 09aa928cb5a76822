-- ===== src/Forwarder/Connections.antt =====
-- The pool of connections: `forward` dials, keeps and evicts them, `Close` empties it.
use postbox.Common.{
  String, ◌≡◌, ◌≢◌, inl, inr, Bool, true, false, none, some, List, [], ◌∷◌, string_Eq, ◌==◌,
  if◌then◌else◌, arith, eq_iff, Bool-cases, Option-cases, ◌||◌, refl,
}
use postbox.Common.Map.{get, put, get-put, remove, get-remove}
use postbox.Forwarder.{
  Network, Answer, accepted, unavailable, Pool, dial, forward, close, close_each,
}

abbrev pub pooled : String → Pool → Bool
pooled addr pool = elim (get addr pool) [ some _ ↦ true | none ↦ false ]

-- A client for the address can be had: it is pooled, or it can be made.
abbrev pub reachable : Network → String → Pool → Bool
reachable net addr pool = pooled addr pool || net.can_dial addr

-- Whether the node that answers leaves the connection usable.
abbrev pub usable : Answer → Bool
usable unavailable = false
usable _ = true

abbrev is_accepted : Answer → Bool
is_accepted accepted = true
is_accepted _ = false

module _ (net : Network) (addr : String) (rs : List String) (pool : Pool) where
  -- A forward succeeds exactly when a client can be had and the remote node accepts.
  pub forward-done :
      (forward net addr rs pool).1
      ≡ (if reachable net addr pool then is_accepted (net.answer addr rs) else false)
  unfolding forward dial
  forward-done = ground arith

  -- After a forward the address is pooled exactly when a client could be had and the node was not
  -- unavailable; every other address is pooled as before.
  pub pooled-forward :
      (a : String)
      → pooled a (forward net addr rs pool).0 ≡ (
          if addr == a
          then if reachable net addr pool then usable (net.answer addr rs) else false
          else pooled a pool)
  unfolding forward dial
  pooled-forward a = ground (
    arith,
    eq_iff addr a,
    get-put addr a tt pool,
    get-remove addr a pool,
    get-remove addr a (put addr tt pool),
  )

get-close_each :
    (a : String) (rest pool : Pool) → get a pool ≡ none → get a (close_each rest pool) ≡ none
unfolding close_each
get-close_each a [] pool h = h
get-close_each a ((b, c) ∷ rest) pool h =
    get-close_each a rest (remove b pool) (ground (arith, get-remove b a pool))

-- What the loop has met is closed.
met-close_each :
    (a : String) (rest pool : Pool) → get a rest ≢ none → get a (close_each rest pool) ≡ none
unfolding close_each get
met-close_each a [] pool h = absurd (h refl)
met-close_each a ((b, c) ∷ rest) pool h = elim (Bool-cases (b == a)) [
  | inl e ↦ get-close_each a rest (remove b pool) (ground (arith, get-remove b a pool))
  | inr e ↦ met-close_each a rest (remove b pool) (rw e at h)
]

-- After `Close` no address is pooled.
pub get-close : (a : String) (pool : Pool) → get a (close pool) ≡ none
unfolding close
get-close a pool = elim (Option-cases (get a pool)) [
  | inl e ↦ get-close_each a pool pool e
  | inr (c, e) ↦ met-close_each a pool pool (λ p. ground arith)
]
