-- ===== src/Forwarder/Delivery.antt =====
-- No recipient is lost and none is served twice: each is either forwarded, to the node that owns it,
-- or handed to the local handler.
use postbox.Common.{
  ℕ, ◌+◌, String, ◌≡◌, refl, inl, inr, Bool, true, false, Option, none, some, List, [], ◌∷◌, ◌++◌,
  string_Eq, ◌==◌, arith, count, count-append, Bool-cases, Option-cases,
}
use postbox.Common.Map.{Map, get, put}
use postbox.Registry.{Lookup}
use postbox.Forwarder.{
  Network, Split, Sent, Pool, push, target_of, classify_one, classify, forward, forward_one,
  forward_all, handle,
}

-- All recipients of a map from addresses.
abbrev pub recipients_of : Map String (List String) → List String
recipients_of [] = []
recipients_of ((addr, rs) ∷ m) = rs ++ recipients_of m

abbrev pub called : Option (List String) → List String
called none = []
called (some rs) = rs

push-cons_eq :
    (a addr r : String) (rs : List String) (m : Map String (List String))
    → (a == addr) ≡ true
    → push addr r ((a, rs) ∷ m) ≡ (addr, rs ++ r ∷ []) ∷ m
unfolding push get put
push-cons_eq a addr r rs m e = rw e

push-cons_ne :
    (a addr r : String) (rs : List String) (m : Map String (List String))
    → (a == addr) ≡ false
    → push addr r ((a, rs) ∷ m) ≡ (a, rs) ∷ push addr r m
unfolding push get put
push-cons_ne a addr r rs m e = ground arith

module _ (node_id : String) (lookup resolve : Lookup) (r : String) (s : Split) where
  pub classify_one-here :
      target_of node_id lookup resolve r ≡ none
      → classify_one node_id lookup resolve r s ≡ record s { here = s.here ++ r ∷ [] }
  unfolding classify_one
  classify_one-here e = rw (e, classify_one)

  pub classify_one-remote :
      (addr : String)
      → target_of node_id lookup resolve r ≡ some addr
      → classify_one node_id lookup resolve r s ≡ record s { remote = push addr r s.remote }
  unfolding classify_one
  classify_one-remote addr e = rw (e, classify_one)

pub called-handler : (rs : List String) → called (elim rs [ [] ↦ none | r ∷ q ↦ some (r ∷ q) ]) ≡ rs
called-handler [] = refl
called-handler (r ∷ q) = refl

module _ (p : String → Bool) where
  count-push :
      (addr r : String) (m : Map String (List String))
      → count p (recipients_of (push addr r m)) ≡ count p (recipients_of m) + count p (r ∷ [])
  unfolding push get put
  count-push addr r [] = omega arith
  count-push addr r ((a, rs) ∷ m) = elim (Bool-cases (a == addr)) [
    | inl e ↦ rw (push-cons_eq a addr r rs m e) (
        omega (
          arith,
          count-append p (rs ++ r ∷ []) (recipients_of m),
          count-append p rs (r ∷ []),
          count-append p rs (recipients_of m),
        ))
    | inr e ↦ rw (push-cons_ne a addr r rs m e) (
        omega (
          arith,
          count-push addr r m,
          count-append p rs (recipients_of (push addr r m)),
          count-append p rs (recipients_of m),
        ))
  ]

  -- How many recipients of a split pass the test.
  abbrev split_count : Split → ℕ
  split_count s = count p s.here + count p (recipients_of s.remote)

  count-classify_one :
      (node_id : String) (lookup resolve : Lookup) (r : String) (s : Split)
      → split_count (classify_one node_id lookup resolve r s) ≡ split_count s + count p (r ∷ [])
  count-classify_one node_id lookup resolve r s =
      elim (Option-cases (target_of node_id lookup resolve r)) [
        | inl e ↦
            rw (classify_one-here node_id lookup resolve r s e)
              (omega (arith, count-append p s.here (r ∷ [])))
        | inr (addr, e) ↦
            rw (classify_one-remote node_id lookup resolve r s addr e)
              (omega (arith, count-push addr r s.remote))
      ]

  count-classify :
      (node_id : String) (lookup resolve : Lookup) (rs : List String) (s : Split)
      → split_count (classify node_id lookup resolve rs s) ≡ split_count s + count p rs
  unfolding classify
  count-classify node_id lookup resolve [] s = omega arith
  count-classify node_id lookup resolve (r ∷ rs) s = omega (
    arith,
    count-classify_one node_id lookup resolve r s,
    count-classify node_id lookup resolve rs (classify_one node_id lookup resolve r s),
  )

  abbrev sent_count : Sent → ℕ
  sent_count t = count p t.here + count p (recipients_of t.forwarded)

  count-forward_one :
      (net : Network) (addr : String) (rs : List String) (t : Sent)
      → sent_count (forward_one net addr rs t) ≡ sent_count t + count p rs
  unfolding forward_one
  count-forward_one net addr rs t = elim (Bool-cases (forward net addr rs t.pool).1) [
    | inl e ↦ rw e (omega (arith, count-append p rs (recipients_of t.forwarded)))
    | inr e ↦ rw e (omega (arith, count-append p t.here rs))
  ]

  count-forward_all :
      (net : Network) (m : Map String (List String)) (t : Sent)
      → sent_count (forward_all net m t) ≡ sent_count t + count p (recipients_of m)
  unfolding forward_all
  count-forward_all net [] t = omega arith
  count-forward_all net ((addr, rs) ∷ m) t = omega (
    arith,
    count-forward_one net addr rs t,
    count-forward_all net m (forward_one net addr rs t),
    count-append p rs (recipients_of m),
  )

  -- Whatever the network answers, each recipient is forwarded or handed to the local handler, and
  -- as often as the request names it.
  pub handle-count :
      (node_id : String) (lookup resolve : Lookup) (net : Network) (recipients : List String)
      (pool : Pool)
      → let h = handle node_id lookup resolve net recipients pool in
        count p (called h.local_call) + count p (recipients_of h.forwarded) ≡ count p recipients
  unfolding handle
  handle-count node_id lookup resolve net recipients pool =
      let start : Split = record { here = []; remote = [] } in
      let split = classify node_id lookup resolve recipients start in
      let t : Sent = record { pool = pool; here = split.here; forwarded = [] } in
      rw (called-handler (forward_all net split.remote t).here) (
        omega (
          arith,
          count-classify node_id lookup resolve recipients start,
          count-forward_all net split.remote t,
        ))
