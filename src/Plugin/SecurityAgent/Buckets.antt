-- ===== src/Plugin/SecurityAgent/Buckets.antt =====
-- The bucket of one sender over a history of messages and evictions.
use postbox.Common.{
  ℕ, ◌-◌, ◌/◌, String, Bool, false, Option, none, some, List, [], ◌∷◌, ◌≡◌, refl, ap, ◌∙◌,
  Bool-cases, Option-cases, inl, inr, nat_Eq, string_Eq, ◌==◌, ltb, if◌then◌else◌, arith, eq_iff,
}
use postbox.Common.Map.{Map, get, get-put, UniqueKeys, UniqueKeys-put}
use postbox.Plugin.SecurityAgent.{
  AgentConfig, Draft, SenderEntry, second, limiter_for, evict, take_token, before_send,
}

-- A message at a time, or an eviction at a time.
pub data Happening : Type 0 where
  sends : ℕ → Draft → Happening
  evicts : ℕ → Happening

module _ {Bucket : Type 0} (to_lower : String → String) (allow : ℕ → Bucket → Bucket × Bool)
    (full : Bucket) (cfg : AgentConfig) where
  abbrev Entries : Type 0
  Entries = Map String (SenderEntry Bucket)

  unfoldable pub happen : Happening → Entries → Entries
  happen (sends now d) m = (before_send to_lower allow full cfg now d m).0
  happen (evicts now) m = evict cfg now m

  unfoldable pub happen_all : List Happening → Entries → Entries
  happen_all [] m = m
  happen_all (h ∷ hs) m = happen_all hs (happen h m)

  -- A bucket and the second of its last use; none where there is no bucket, which is like a full one.
  abbrev pub bucket : Option (SenderEntry Bucket) → Bucket
  bucket none = full
  bucket (some e) = e.lim

  abbrev kept : ℕ → Option (SenderEntry Bucket) → Option (SenderEntry Bucket)
  kept now none = none
  kept now (some e) = if ltb e.last_sec ((now - cfg.sender_ttl) / second) then none else some e

  -- The sender's bucket by its own messages: each takes a token if there is one, and an eviction that
  -- finds the bucket unused for the TTL drops it.
  unfoldable pub own_bucket :
      String → List Happening → Option (SenderEntry Bucket) → Option (SenderEntry Bucket)
  own_bucket sender [] o = o
  own_bucket sender (sends now d ∷ hs) o = own_bucket sender hs (
      if d.sender_id == sender
      then some (record { lim = (allow now (bucket o)).0; last_sec = now / second })
      else o)
  own_bucket sender (evicts now ∷ hs) o = own_bucket sender hs (kept now o)

  -- What `limiterFor` finds and leaves.
  lim-limiter_for :
      (at : ℕ) (a : String) (m : Entries) → (limiter_for full at a m).1 ≡ bucket (get a m)
  unfolding limiter_for
  lim-limiter_for at a m = elim (Option-cases (get a m)) [
    | inl e ↦ rw (e, limiter_for) refl
    | inr (x, e) ↦ rw (e, limiter_for) refl
  ]

  get-limiter_for :
      (at : ℕ) (a sender : String) (m : Entries)
      → (a == sender) ≡ false
      → get sender (limiter_for full at a m).0 ≡ get sender m
  unfolding limiter_for
  get-limiter_for at a sender m h = elim (Option-cases (get a m)) [
    | inl e ↦
        rw (e, limiter_for)
          (rw (get-put a sender (record { lim = full; last_sec = at }) m) (rw h refl))
    | inr (x, e) ↦
        rw (e, limiter_for)
          (rw (get-put a sender (record { lim = x.lim; last_sec = at }) m) (rw h refl))
  ]

  UniqueKeys-limiter_for :
      (at : ℕ) (a : String) (m : Entries) → UniqueKeys m → UniqueKeys (limiter_for full at a m).0
  unfolding limiter_for
  UniqueKeys-limiter_for at a m u = elim (Option-cases (get a m)) [
    | inl e ↦ rw (e, limiter_for) (UniqueKeys-put a (record { lim = full; last_sec = at }) m u)
    | inr (x, e) ↦
        rw (e, limiter_for) (UniqueKeys-put a (record { lim = x.lim; last_sec = at }) m u)
  ]

  pub granted :
      (now : ℕ) (sender : String) (m : Entries)
      → (take_token allow full now sender m).1 ≡ (allow now (bucket (get sender m))).1
  unfolding take_token
  granted now sender m =
      ap (λ (b : Bucket). (allow now b).1) (lim-limiter_for (now / second) sender m)

  get-take_token :
      (now : ℕ) (a sender : String) (m : Entries)
      → get sender (take_token allow full now a m).0 ≡ (
          if a == sender
          then some (record { lim = (allow now (bucket (get a m))).0; last_sec = now / second })
          else get sender m)
  unfolding take_token
  get-take_token now a sender m =
      let at = now / second in
      let r = limiter_for full at a m in
      let v : SenderEntry Bucket = record { lim = (allow now r.1).0; last_sec = at } in
      elim (Bool-cases (a == sender)) [
        | inl e ↦ rw (get-put a sender v r.0) (
            rw e (
              ap (λ (b : Bucket). some (record { lim = (allow now b).0; last_sec = at }))
                (lim-limiter_for at a m)))
        | inr e ↦ rw (get-put a sender v r.0) (rw e (get-limiter_for at a sender m e))
      ]

  UniqueKeys-take_token :
      (now : ℕ) (a : String) (m : Entries)
      → UniqueKeys m
      → UniqueKeys (take_token allow full now a m).0
  unfolding take_token
  UniqueKeys-take_token now a m u =
      let at = now / second in
      let r = limiter_for full at a m in
      UniqueKeys-put a (record { lim = (allow now r.1).0; last_sec = at }) r.0
        (UniqueKeys-limiter_for at a m u)

  get-evict-none :
      (now : ℕ) (sender : String) (m : Entries)
      → get sender m ≡ none
      → get sender (evict cfg now m) ≡ none
  unfolding get evict
  get-evict-none now sender [] h = refl
  get-evict-none now sender ((k, e) ∷ m) h = ground (arith, get-evict-none now sender m)

  get-evict :
      (now : ℕ) (sender : String) (m : Entries)
      → UniqueKeys m
      → get sender (evict cfg now m) ≡ kept now (get sender m)
  unfolding get evict
  get-evict now sender [] u = refl
  get-evict now sender ((k, e) ∷ m) u =
      ground (arith, get-evict now sender m u.1, get-evict-none now k m u.0, eq_iff k sender)

  UniqueKeys-evict : (now : ℕ) (m : Entries) → UniqueKeys m → UniqueKeys (evict cfg now m)
  unfolding evict
  UniqueKeys-evict now [] u = tt
  UniqueKeys-evict now ((k, e) ∷ m) u =
      elim (Bool-cases (ltb e.last_sec ((now - cfg.sender_ttl) / second))) [
        | inl f ↦ rw f (UniqueKeys-evict now m u.1)
        | inr f ↦ rw f (get-evict-none now k m u.0, UniqueKeys-evict now m u.1)
      ]

  happen-sends :
      (now : ℕ) (d : Draft) (m : Entries)
      → (cfg.rate_per_sender == 0) ≡ false
      → happen (sends now d) m ≡ (take_token allow full now d.sender_id m).0
  unfolding happen before_send
  happen-sends now d m r = rw (r, happen, before_send) refl

  happen-evicts : (now : ℕ) (m : Entries) → happen (evicts now) m ≡ evict cfg now m
  unfolding happen
  happen-evicts now m = refl

  -- The entry that a message leaves.
  own :
      (now : ℕ) (d : Draft) (sender : String) (m : Entries)
      → get sender (take_token allow full now d.sender_id m).0 ≡ (
          if d.sender_id == sender
          then some
              (record { lim = (allow now (bucket (get sender m))).0; last_sec = now / second })
          else get sender m)
  own now d sender m =
      ground (arith, get-take_token now d.sender_id sender m, eq_iff d.sender_id sender)

  pub get-happen_all :
      (hs : List Happening) (sender : String) (m : Entries)
      → (cfg.rate_per_sender == 0) ≡ false
      → UniqueKeys m
      → get sender (happen_all hs m) ≡ own_bucket sender hs (get sender m)
  unfolding happen_all own_bucket
  get-happen_all [] sender m r u = refl
  get-happen_all (sends now d ∷ hs) sender m r u =
      let m' = (take_token allow full now d.sender_id m).0 in
      rw (happen-sends now d m r) (
        get-happen_all hs sender m' r (UniqueKeys-take_token now d.sender_id m u)
        ∙ ap (own_bucket sender hs) (own now d sender m))
  get-happen_all (evicts now ∷ hs) sender m r u =
      let dropped : happen (evicts now) m ≡ evict cfg now m = happen-evicts now m in
      rw dropped (
        rw (get-happen_all hs sender (evict cfg now m) r (UniqueKeys-evict now m u))
          (ap (own_bucket sender hs) (get-evict now sender m u)))
