-- ===== src/Plugin/SmtpSecurity/Checks.antt =====
-- When the plugin lets a message pass.
use Prim.Native.Char.{code}
use Prim.Native.String.{len, ◌++◌ as str_append}
use text.Mathlib.TextLemmas.{nil-append, cons-append}
use postbox.Common.{
  ℕ, ◌+◌, ◌^◌, ◌<◌, ◌≢◌, refl, String, List, [], nat_eq, after_last, ◌∙◌, eq_iff, cons_full, ap,
  Option-cases, inl, inr, ◌≡◌, Bool, true, false, ◌&&◌, ◌||◌, not, Option, none, some, nat_Eq,
  string_Eq, ◌==◌, ltb, leb, arith, length, map,
}
use postbox.Store.{read}
use postbox.Common.Map.{get}
use postbox.Plugin.SmtpSecurity.Lockout.{
  Happening, happen_all, tally, never_idle, is_locked_out-happen_all,
}
use postbox.Plugin.SmtpSecurity.{
  AddressLib, SecurityConfig, LockoutState, in_memory, Draft, Rejection, is_locked_out_of, member,
  sender_domain, parse_email_addr, before_send,
}

abbrev pub passes : Option Rejection → Bool
passes none = true
passes (some r) = false

module _ (lib : AddressLib) (cfg : SecurityConfig) (now : ℕ) (m : LockoutState) (d : Draft) where
  abbrev has_sender : Bool
  has_sender = not (d.sender_id == "")

  -- The connection, if its address is known, is not locked out.
  abbrev pub connection_ok : Bool
  connection_ok =
      let remote_addr = read "X-SMTP-Remote-Addr" d.headers in
      remote_addr == "" || not (is_locked_out_of lib cfg now remote_addr m)

  -- The domain of a sender is not blocked, and is allowed where there is a list of allowed domains.
  abbrev pub domain_ok : Bool
  domain_ok =
      let domain = sender_domain lib d.sender_id in
      d.sender_id == ""
      || (not (member domain (map lib.to_lower cfg.blocked_sender_domains))
          && (not (ltb 0 (length cfg.allowed_sender_domains))
              || member domain (map lib.to_lower cfg.allowed_sender_domains)))

  -- With the check on, a sender that is known on both sides is the same on both.
  abbrev pub envelope_ok : Bool
  envelope_ok =
      let envelope_from = parse_email_addr lib (read "X-SMTP-Envelope-From" d.headers) in
      not cfg.envelope_spoof_check
      || envelope_from == ""
      || d.sender_id == ""
      || lib.equal_fold envelope_from d.sender_id

  abbrev pub subject_ok : Bool
  subject_ok = not (ltb 0 cfg.max_subject_bytes) || leb (len d.subject) cfg.max_subject_bytes

  abbrev pub sender_ok : Bool
  sender_ok = not cfg.require_authenticated_sender || has_sender

  checked-before_send :
      passes (before_send lib cfg now m d)
      ≡ (connection_ok && domain_ok && envelope_ok && subject_ok && sender_ok)
  unfolding before_send
  checked-before_send = ground arith

-- The character with this code does not stand in the text.
abbrev pub free_of : ℕ → String → Bool
free_of x String.[] = true
free_of x (String.◌∷◌ c s) = not (nat_eq (code c) x) && free_of x s

after_last-free : (x : ℕ) (s : String) → free_of x s ≡ true → after_last x s ≡ none
unfolding after_last
after_last-free x String.[] h = refl
after_last-free x (String.◌∷◌ c s) h = ground (arith, after_last-free x s)

cons_at : (domain : String) → str_append "@" domain ≡ String.◌∷◌ "@" domain
cons_at domain =
    cons-append "@" "" domain ∙ ap (λ (t : String). String.◌∷◌ "@" t) (nil-append domain)

-- What stands after the last at sign.
after_last-append :
    (user domain : String)
    → free_of b'@' domain ≡ true
    → after_last b'@' (str_append user (str_append "@" domain)) ≡ some domain
unfolding after_last
after_last-append String.[] domain h =
    rw (nil-append (str_append "@" domain))
      (rw (cons_at domain) (ground (arith, after_last-free b'@' domain h)))
after_last-append (String.◌∷◌ c user) domain h =
    rw (cons-append c user (str_append "@" domain))
      (ground (arith, after_last-append user domain h))

-- Whether the sender may send by its domain, in lower case: not from a blocked one, and from an
-- allowed one if there are any.
abbrev pub may_send : (String → String) → SecurityConfig → String → Bool
may_send to_lower cfg domain =
    not (member (to_lower domain) (map to_lower cfg.blocked_sender_domains))
    && (length cfg.allowed_sender_domains == 0
        || member (to_lower domain) (map to_lower cfg.allowed_sender_domains))

-- Whether the address of the envelope, if there is one, is that of the sender. A header that is no
-- address stands for itself.
abbrev pub same_sender : AddressLib → String → String → Bool
same_sender lib header sender = elim (lib.parse_address header) [
  | none ↦ header == "" || lib.equal_fold header sender
  | some addr ↦ addr == "" || lib.equal_fold addr sender
]

full-after_last : (s rest : String) → after_last b'@' s ≡ some rest → (s == "") ≡ false
unfolding after_last
full-after_last String.[] rest h = cc
full-after_last (String.◌∷◌ c s) rest h = cons_full c s

module _ (lib : AddressLib) (cfg : SecurityConfig) (now : ℕ) (m : LockoutState) (d : Draft) where
  connection_lem :
      (peer : String)
      → read "X-SMTP-Remote-Addr" d.headers ≡ peer
      → peer ≢ ""
      → connection_ok lib cfg now m d ≡ not (is_locked_out_of lib cfg now peer m)
  connection_lem peer from known = rw from (ground (arith, eq_iff peer ""))

  envelope_lem :
      (d.sender_id == "") ≡ false
      → envelope_ok lib cfg now m d ≡ (
          not cfg.envelope_spoof_check
          || same_sender lib (read "X-SMTP-Envelope-From" d.headers) d.sender_id)
  unfolding parse_email_addr
  envelope_lem some_sender =
      elim (Option-cases (lib.parse_address (read "X-SMTP-Envelope-From" d.headers))) [
        | inl e ↦ ground (arith, e)
        | inr (addr, e) ↦ ground (arith, e)
      ]

-- With the lockout in memory and on, over any history of fewer than 2^31 failed logins and evictions
-- from an empty map, no eviction of which finds the peer's host idle for the TTL since its last
-- failure: a message of a sender with an address, from a connection of a known peer, passes exactly
-- when the peer is not locked out, that is, its host has failed less often than the maximum, or the
-- lockout since its last failure is over; the sender may send by what stands after the last at sign
-- of the address; the envelope's sender is the same, if that is checked; and the subject is not
-- longer than the limit, if there is one.
pub sender-before_send :
    (lib : AddressLib) (cfg : SecurityConfig) (now : ℕ) (hs : List Happening) (d : Draft)
    (peer user domain : String)
    → cfg.max_auth_failures_per_ip ≢ 0
    → length hs < 2 ^ 31
    → never_idle lib cfg peer hs 0 0 ≡ true
    → read "X-SMTP-Remote-Addr" d.headers ≡ peer
    → peer ≢ ""
    → d.sender_id ≡ str_append user (str_append "@" domain)
    → free_of b'@' domain ≡ true
    → let (n, last) = tally lib cfg peer hs 0 0 in
      passes (before_send lib cfg now (in_memory (happen_all lib cfg hs [])) d) ≡ (
        not (leb cfg.max_auth_failures_per_ip n && ltb now (last + cfg.lockout_duration))
        && may_send lib.to_lower cfg domain
        && (not cfg.envelope_spoof_check
            || same_sender lib (read "X-SMTP-Envelope-From" d.headers) d.sender_id)
        && (cfg.max_subject_bytes == 0 || leb (len d.subject) cfg.max_subject_bytes))
unfolding get sender_domain parse_email_addr is_locked_out_of
sender-before_send lib cfg now hs d peer user domain on few seen from known sender at =
    let m = in_memory (happen_all lib cfg hs []) in
    let free = is_locked_out-happen_all lib cfg hs now peer [] on few seen refl in
    let after : after_last b'@' d.sender_id ≡ some domain =
      ap (after_last b'@') sender ∙ after_last-append user domain at in
    let some_sender : (d.sender_id == "") ≡ false = full-after_last d.sender_id domain after in
    let dom : sender_domain lib d.sender_id ≡ lib.to_lower domain =
      ap (λ (o : Option String). elim o [ some t ↦ lib.to_lower t | none ↦ "" ]) after in
    let connection = connection_lem lib cfg now m d peer from known in
    let envelope = envelope_lem lib cfg now m d some_sender in
    checked-before_send lib cfg now m d
    ∙ ground (arith, connection, free, some_sender, dom, envelope)
