-- ===== src/Smtp/Listener/Limits.antt =====
-- What the limits of the listener do to sessions and connections.
use postbox.Common.{
  ℕ, ◌-◌, ◌≡◌, ◌≢◌, refl, String, Bool, Option, none, some, nat_Eq, string_Eq, ltb, if◌then◌else◌,
  err, arith, eq_iff,
}
use postbox.Common.Map.{get, get-put}
use postbox.Plugin.SmtpSecurity.{AddressLib, IpMap}
use postbox.Smtp.{Session, code, auth_required, auth_failed}
use postbox.Smtp.Listener.{
  Config, or_default, Limiters, new_with_validator, peer_ip, take_ip, admit, open_session,
}

-- No setting leaves the failures of a session without a limit: a session whose failures come to the
-- setting, or to 5 where the setting is 0, is closed with reply 421, and no other session is.
pub auth_failed-limit :
    (lib : AddressLib) (cfg : Config) (users : Option (String → Bool))
    (validator : Option (String → String → Bool)) (now : ℕ) (s : Session) (m : IpMap)
    → (auth_failed lib (new_with_validator cfg users validator) now s m).2 ≡ (
        if ltb s.auth_failures (or_default cfg.max_auth_failures_per_session 5 - 1)
        then err auth_required
        else err (code 421))
unfolding auth_failed new_with_validator
auth_failed-limit lib cfg users validator now s m = ground arith

module _ {Bucket : Type 0} (lib : AddressLib) (allow : ℕ → Bucket → Bucket × Bool)
    (full : Bucket) where
  -- A connection takes a token from the limiter for all connections, and, where that grants one and
  -- addresses are limited, from the limiter of its own address; the limiter of another address stays as
  -- it was.
  pub open_session-others :
      (cfg : Config) (now : ℕ) (conn : Option String) (l : Limiters Bucket) (ip : String)
      → ((addr : String) → conn ≡ some addr → peer_ip lib allow full addr ≢ ip)
      → get ip (open_session lib allow full cfg now conn l).0.ip_limiters ≡ get ip l.ip_limiters
  unfolding open_session admit take_ip
  open_session-others cfg now none l ip h = ground arith
  open_session-others cfg now (some addr) l ip h =
      let own = peer_ip lib allow full addr in
      ground (
        arith,
        h addr refl,
        eq_iff own ip,
        get-put own ip (allow now (elim (get own l.ip_limiters) [ none ↦ full | some b ↦ b ])).0
            l.ip_limiters,
      )
