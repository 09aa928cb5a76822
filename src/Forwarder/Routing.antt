-- ===== src/Forwarder/Routing.antt =====
-- Where each recipient ends up, and why.
use postbox.Common.{
  any, ◌==◌, eq_iff, String, ◌≡◌, ◌≢◌, ◌⊎◌, inl, inr, refl, true, false, Option, none, some, List,
  [], ◌∷◌, string_Eq, arith, All, All-append, Bool-cases, Option-cases,
}
use postbox.Common.Map.{Map, get, AllEntries, AllEntries-put, AllEntries-get}
use postbox.Registry.{Lookup}
use postbox.Forwarder.{
  Network, accepted, Split, Sent, Pool, push, or_nil, target_of, classify_one, classify, forward,
  dial, forward_one, forward_all, handle,
}
use postbox.Forwarder.Delivery.{called, classify_one-here, classify_one-remote, called-handler}

module _ (node_id : String) (lookup resolve : Lookup) (net : Network) where
  -- The node at the address owns the recipient.
  abbrev pub OwnedBy : String → String → Type 0
  OwnedBy addr r = target_of node_id lookup resolve r ≡ some addr

  -- A message for these recipients at that address was not delivered there.
  abbrev pub Failed : String → List String → Type 0
  Failed addr rs = (net.answer addr rs ≢ accepted) ⊎ (net.can_dial addr ≡ false)

  -- A recipient that belongs here: no other node with a known address owns it, or the forward to
  -- that node of a message for it failed.
  abbrev pub StaysHere : String → Type 0
  StaysHere r =
      (target_of node_id lookup resolve r ≡ none)
      ⊎ ((addr : String) × (rs : List String) × OwnedBy addr r
          × (any (λ q. q == r) rs ≡ true)
          × Failed addr rs)

  abbrev IsOwned : Map String (List String) → Type 0
  IsOwned m = AllEntries (λ addr rs. All (OwnedBy addr) rs) m

  or_nil-owned :
      (addr : String) (m : Map String (List String))
      → IsOwned m
      → (o : Option (List String)) → get addr m ≡ o
      → All (OwnedBy addr) (or_nil o)
  or_nil-owned addr m h none e = tt
  or_nil-owned addr m h (some rs) e = AllEntries-get (λ a q. All (OwnedBy a) q) addr m h e

  push-IsOwned :
      (addr r : String) (m : Map String (List String))
      → OwnedBy addr r
      → IsOwned m
      → IsOwned (push addr r m)
  unfolding push
  push-IsOwned addr r m o h =
      AllEntries-put (λ a q. All (OwnedBy a) q) addr _ m
        (All-append (OwnedBy addr) (or_nil (get addr m)) (r ∷ [])
          (or_nil-owned addr m h (get addr m) refl) (o, tt))
        h

  record IsSplit (s : Split) : Type 0 where
    here_ok : All (λ r. target_of node_id lookup resolve r ≡ none) s.here
    remote_ok : IsOwned s.remote

  classify_one-IsSplit :
      (r : String) (s : Split) → IsSplit s → IsSplit (classify_one node_id lookup resolve r s)
  classify_one-IsSplit r s h = elim (Option-cases (target_of node_id lookup resolve r)) [
    | inl e ↦ rw (classify_one-here node_id lookup resolve r s e) (record {
      here_ok = All-append _ s.here (r ∷ []) h.here_ok (e, tt);
      remote_ok = h.remote_ok;
    })
    | inr (addr, e) ↦
        rw (classify_one-remote node_id lookup resolve r s addr e)
          (record { here_ok = h.here_ok; remote_ok = push-IsOwned addr r s.remote e h.remote_ok })
  ]

  classify-IsSplit :
      (rs : List String) (s : Split) → IsSplit s → IsSplit (classify node_id lookup resolve rs s)
  unfolding classify
  classify-IsSplit [] s h = h
  classify-IsSplit (r ∷ rs) s h =
      classify-IsSplit rs (classify_one node_id lookup resolve r s) (classify_one-IsSplit r s h)

  record IsSent (t : Sent) : Type 0 where
    here_ok : All StaysHere t.here
    forwarded_ok :
        AllEntries (λ addr rs. All (OwnedBy addr) rs × (net.answer addr rs ≡ accepted)) t.forwarded

  forward-accepted :
      (addr : String) (rs : List String) (pool : Pool)
      → (forward net addr rs pool).1 ≡ true
      → net.answer addr rs ≡ accepted
  unfolding forward
  forward-accepted addr rs pool h = ground arith

  forward-Failed :
      (addr : String) (rs : List String) (pool : Pool)
      → (forward net addr rs pool).1 ≡ false
      → Failed addr rs
  unfolding forward dial
  forward-Failed addr rs pool h = ground arith

  All-stay :
      (addr : String) (rs qs : List String)
      → Failed addr qs
      → ((x : String) → any (λ q. q == x) rs ≡ true → any (λ q. q == x) qs ≡ true)
      → All (OwnedBy addr) rs
      → All StaysHere rs
  All-stay addr [] qs f k h = tt
  All-stay addr (r ∷ rs) qs f k h = (
    inr (addr, qs, h.0, k r (ground (arith, eq_iff r r)), f),
    All-stay addr rs qs f (λ x e. k x (ground arith)) h.1,
  )

  forward_one-IsSent :
      (addr : String) (rs : List String) (t : Sent)
      → All (OwnedBy addr) rs
      → IsSent t
      → IsSent (forward_one net addr rs t)
  unfolding forward_one
  forward_one-IsSent addr rs t o h = elim (Bool-cases (forward net addr rs t.pool).1) [
    | inl e ↦ rw e (record {
      here_ok = h.here_ok;
      forwarded_ok = ((o, forward-accepted addr rs t.pool e), h.forwarded_ok);
    })
    | inr e ↦ rw e (record {
      here_ok =
          All-append StaysHere t.here rs h.here_ok
            (All-stay addr rs rs (forward-Failed addr rs t.pool e) (λ x k. k) o);
      forwarded_ok = h.forwarded_ok;
    })
  ]

  forward_all-IsSent :
      (m : Map String (List String)) (t : Sent)
      → IsOwned m
      → IsSent t
      → IsSent (forward_all net m t)
  unfolding forward_all
  forward_all-IsSent [] t o h = h
  forward_all-IsSent ((addr, rs) ∷ m) t o h =
      forward_all-IsSent m (forward_one net addr rs t) o.1 (forward_one-IsSent addr rs t o.0 h)

  here_stay :
      (rs : List String)
      → All (λ r. target_of node_id lookup resolve r ≡ none) rs
      → All StaysHere rs
  here_stay [] h = tt
  here_stay (r ∷ rs) h = (inl h.0, here_stay rs h.1)

  -- Every forwarded recipient is owned by the node at that address, which accepted the message;
  -- the local handler gets only recipients that no other node with a known address owns, or that
  -- stand in a message that their owner could not be sent or did not accept.
  pub handle-routed :
      (recipients : List String) (pool : Pool)
      → let h = handle node_id lookup resolve net recipients pool in
        AllEntries (λ addr rs. All (OwnedBy addr) rs × (net.answer addr rs ≡ accepted)) h.forwarded
        × All StaysHere (called h.local_call)
  unfolding handle
  handle-routed recipients pool =
      let start : Split = record { here = []; remote = [] } in
      let split = classify node_id lookup resolve recipients start in
      let ok_split = classify-IsSplit recipients start (record { here_ok = tt; remote_ok = tt }) in
      let t : Sent = record { pool = pool; here = split.here; forwarded = [] } in
      let ok_sent =
        forward_all-IsSent split.remote t ok_split.remote_ok
          (record { here_ok = here_stay split.here ok_split.here_ok; forwarded_ok = tt }) in
      (
        ok_sent.forwarded_ok,
        rw (called-handler (forward_all net split.remote t).here) ok_sent.here_ok,
      )
