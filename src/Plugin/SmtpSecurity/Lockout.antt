-- ===== src/Plugin/SmtpSecurity/Lockout.antt =====
-- When an address is locked out, and for how long.
use postbox.Common.{
  ℕ, zero, suc, ◌-◌, true, ◌||◌, inl, inr, Bool-cases, ◌+◌, ◌^◌, ◌≤◌, ◌<◌, ◌≡◌, ◌≢◌, refl, String,
  Bool, false, ◌&&◌, Option, none, some, List, [], ◌∷◌, string_Eq, nat_Eq, ◌==◌, ltb, leb,
  if◌then◌else◌, arith, eq_iff, length,
}
use postbox.Common.Map.{get, get-put, UniqueKeys}
use postbox.Plugin.SmtpSecurity.{
  AddressLib, SecurityConfig, IpEntry, IpMap, host_only, entry_of, fail_entry, record_auth_failure,
  is_locked_out, evict, unix,
}

-- What happens to the map: a failed login of an address, or an eviction, each with its time.
pub data Happening : Type 0 where
  fails : ℕ → String → Happening
  evicts : ℕ → Happening

module _ (lib : AddressLib) (cfg : SecurityConfig) where
  -- A failure that reports a lockout locks its address out until the lockout duration is over; one
  -- that does not leaves the lockout of its address as it was; other addresses are not touched.
  pub is_locked_out-record_auth_failure :
      (now t : ℕ) (a b : String) (m : IpMap)
      → let (m', locked) = record_auth_failure lib cfg now a m in
        is_locked_out lib cfg t b m' ≡ (
          if locked && host_only lib a == host_only lib b
          then ltb t (now + cfg.lockout_duration)
          else is_locked_out lib cfg t b m)
  unfolding record_auth_failure is_locked_out fail_entry
  is_locked_out-record_auth_failure now t a b m =
      let ip = host_only lib a in
      ground (
        arith,
        eq_iff ip (host_only lib b),
        get-put ip (host_only lib b) (fail_entry cfg now (entry_of (get ip m))).0 m,
      )

  get-evict :
      (now : ℕ) (ip : String) (m : IpMap) → get ip m ≡ none → get ip (evict cfg now m) ≡ none
  unfolding get evict
  get-evict now ip [] h = refl
  get-evict now ip ((k, e) ∷ m) h = ground (arith, get-evict now ip m)

  -- The eviction keeps an entry that was seen within the TTL.
  get-evict_seen :
      (now : ℕ) (ip : String) (e : IpEntry) (m : IpMap)
      → get ip m ≡ some e
      → unix (now - cfg.ip_lookup_ttl) ≤ e.last_seen
      → get ip (evict cfg now m) ≡ some e
  unfolding get evict
  get-evict_seen now ip e [] h r = cc
  get-evict_seen now ip e ((k, x) ∷ m) h r = ground (arith, get-evict_seen now ip e m, eq_iff k ip)

  unfoldable pub happen : Happening → IpMap → IpMap
  happen (fails now b) m = (record_auth_failure lib cfg now b m).0
  happen (evicts now) m = evict cfg now m

  unfoldable pub happen_all : List Happening → IpMap → IpMap
  happen_all [] m = m
  happen_all (h ∷ hs) m = happen_all hs (happen h m)

  -- The number of failures of an address's host, and the time of the last one.
  abbrev pub tally : String → List Happening → ℕ → ℕ → ℕ × ℕ
  tally a [] n last = (n, last)
  tally a (fails now b ∷ hs) n last =
      if host_only lib b == host_only lib a then tally a hs (n + 1) now else tally a hs n last
  tally a (evicts now ∷ hs) n last = tally a hs n last

  -- No eviction comes when the host, once it has failed, was idle for the TTL.
  abbrev pub never_idle : String → List Happening → ℕ → ℕ → Bool
  never_idle a [] n last = true
  never_idle a (fails now b ∷ hs) n last =
      if host_only lib b == host_only lib a
      then never_idle a hs (n + 1) now
      else never_idle a hs n last
  never_idle a (evicts now ∷ hs) n last =
      (n == 0 || leb (unix (now - cfg.ip_lookup_ttl)) (unix last)) && never_idle a hs n last

  -- The entry after `n` failures, the last of them at `last`.
  abbrev entry_after : ℕ → ℕ → Option IpEntry
  entry_after zero last = none
  entry_after (suc n) last = some (record {
    failures = suc n;
    locked_until =
        if leb cfg.max_auth_failures_per_ip (suc n) then last + cfg.lockout_duration else 0;
    last_seen = unix last;
  })

  get-fails :
      (now n last : ℕ) (a b : String) (m : IpMap)
      → cfg.max_auth_failures_per_ip ≢ 0
      → n + 1 < 2 ^ 31
      → get (host_only lib a) m ≡ entry_after n last
      → get (host_only lib a) (happen (fails now b) m) ≡ (
          if host_only lib b == host_only lib a
          then entry_after (n + 1) now
          else entry_after n last)
  unfolding happen record_auth_failure fail_entry
  get-fails now zero last a b m h few e =
      let ip = host_only lib b in
      ground (
        arith,
        eq_iff ip (host_only lib a),
        get-put ip (host_only lib a) (fail_entry cfg now (entry_of (get ip m))).0 m,
      )
  get-fails now (suc n) last a b m h few e =
      let ip = host_only lib b in
      ground (
        arith,
        eq_iff ip (host_only lib a),
        get-put ip (host_only lib a) (fail_entry cfg now (entry_of (get ip m))).0 m,
      )

  get-evicts :
      (now n last : ℕ) (a : String) (m : IpMap)
      → (n == 0 || leb (unix (now - cfg.ip_lookup_ttl)) (unix last)) ≡ true
      → get (host_only lib a) m ≡ entry_after n last
      → get (host_only lib a) (happen (evicts now) m) ≡ entry_after n last
  unfolding happen
  get-evicts now zero last a m r e = get-evict now (host_only lib a) m e
  get-evicts now (suc n) last a m r e = get-evict_seen now (host_only lib a) _ m e (ground arith)

  abbrev tallied : ℕ × ℕ → Option IpEntry
  tallied (n, last) = entry_after n last

  get-happen_all :
      (hs : List Happening) (n last : ℕ) (a : String) (m : IpMap)
      → cfg.max_auth_failures_per_ip ≢ 0
      → n + length hs < 2 ^ 31
      → never_idle a hs n last ≡ true
      → get (host_only lib a) m ≡ entry_after n last
      → get (host_only lib a) (happen_all hs m) ≡ tallied (tally a hs n last)
  unfolding happen_all
  get-happen_all [] n last a m h few r e = e
  get-happen_all (fails now b ∷ hs) n last a m h few r e =
      let g = get-fails now n last a b m h (omega arith) e in
      elim (Bool-cases (host_only lib b == host_only lib a)) [
        | inl q ↦ rw q (
            get-happen_all hs (n + 1) now a (happen (fails now b) m) h (omega arith) (rw q at r)
              (rw q at g))
        | inr q ↦ rw q (
            get-happen_all hs n last a (happen (fails now b) m) h (omega arith) (rw q at r)
              (rw q at g))
      ]
  get-happen_all (evicts now ∷ hs) n last a m h few r e =
      get-happen_all hs n last a (happen (evicts now) m) h (omega arith) (ground arith)
        (get-evicts now n last a m (ground arith) e)

  locked-tallied :
      (t n last : ℕ)
      → cfg.max_auth_failures_per_ip ≢ 0
      → (if cfg.max_auth_failures_per_ip == 0
          then false
          else elim (entry_after n last) [ none ↦ false | some e ↦ ltb t e.locked_until ])
        ≡ (leb cfg.max_auth_failures_per_ip n && ltb t (last + cfg.lockout_duration))
  locked-tallied t zero last h = ground arith
  locked-tallied t (suc n) last h = ground arith

  -- With the lockout on, from a map without an entry for the address's host, over any history of fewer
  -- than 2^31 failed logins, of this host and of others, and evictions, no eviction of which finds
  -- the host idle for the TTL since its last failure: the address is locked out at a time exactly
  -- when its host has failed as often as the maximum or more, and the lockout that starts at its last
  -- failure is not over.
  pub is_locked_out-happen_all :
      (hs : List Happening) (t : ℕ) (a : String) (m : IpMap)
      → cfg.max_auth_failures_per_ip ≢ 0
      → length hs < 2 ^ 31
      → never_idle a hs 0 0 ≡ true
      → get (host_only lib a) m ≡ none
      → let (n, last) = tally a hs 0 0 in
        is_locked_out lib cfg t a (happen_all hs m)
        ≡ (leb cfg.max_auth_failures_per_ip n && ltb t (last + cfg.lockout_duration))
  unfolding is_locked_out
  is_locked_out-happen_all hs t a m h few r e =
      let n = (tally a hs 0 0).0 in
      let last = (tally a hs 0 0).1 in
      rw (get-happen_all hs 0 0 a m h (omega arith) r e) (locked-tallied t n last h)

  locked_entry : ℕ → Option IpEntry → Bool
  locked_entry t none = false
  locked_entry t (some e) = ltb t e.locked_until

  locked-evict :
      (now t : ℕ) (ip : String) (m : IpMap)
      → UniqueKeys m
      → now ≤ t
      → locked_entry t (get ip (evict cfg now m)) ≡ locked_entry t (get ip m)
  unfolding get evict locked_entry
  locked-evict now t ip [] u h = refl
  locked-evict now t ip ((k, e) ∷ m) u h =
      ground (arith, locked-evict now t ip m u.1 h, get-evict now k m u.0, eq_iff k ip)

  -- At every time from an eviction on, the eviction of a map (no key twice) has lifted no lockout
  -- that still holds, and made none.
  pub is_locked_out-evict :
      (now t : ℕ) (a : String) (m : IpMap)
      → UniqueKeys m
      → now ≤ t
      → is_locked_out lib cfg t a (evict cfg now m) ≡ is_locked_out lib cfg t a m
  unfolding is_locked_out locked_entry
  is_locked_out-evict now t a m u h = ground (arith, locked-evict now t (host_only lib a) m u h)
