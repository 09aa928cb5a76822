-- ===== src/Smtp.antt =====
-- internal/smtp/server.go: the session of the embedded SMTP listener. A method takes the session, and
-- the lockout state of the security plugin where it is the hook, and returns them with its reply.
-- Address parsing, DNS (SPF), DKIM and the mailbox are parameters or arguments.
pub mod Sender
pub mod Sanitise
pub mod Request
pub mod Listener
pub mod Lmtp
use Prim.Native.Nat.{min}
use Prim.Native.Char
use postbox.Common.{
  ℕ, zero, suc, ◌+◌, ◌*◌, ◌^◌, String, Bool, true, false, ◌&&◌, ◌||◌, not, Option, none, some, List,
  [], ◌∷◌, ◌++◌, nat_Eq, string_Eq, ◌==◌, ltb, leb, if◌then◌else◌, Result, ok, err,
}
use postbox.Plugin.SmtpSecurity.{
  AddressLib, SecurityConfig, IpMap, record_auth_failure, is_locked_out,
}

-- The replies with a code of their own, `ErrAuthRequired`, `ErrAuthUnknownMechanism`, and an error of
-- reading or of the mailbox.
pub data SmtpError : Type 0 where
  code : ℕ → SmtpError
  auth_required unknown_mechanism : SmtpError
  failure : String → SmtpError

-- The server: its settings, the user resolver and the credential validator where they are not nil,
-- and the security plugin where it is the hook.
pub record Server : Type 0 where
  pub relay_enabled : Bool
  pub check_spf : Bool
  pub max_auth_failures_per_session : ℕ
  pub users : Option (String → Bool)
  pub validator : Option (String → String → Bool)
  pub hook : Option SecurityConfig

pub record Session : Type 0 where
  pub remote_addr : String
  pub authed_user : String
  pub sender : String
  pub recipients : List String
  pub auth_failures : ℕ
  pub spf_result : String

unfoldable pub new_session : String → Session
new_session remote_addr = record {
  remote_addr = remote_addr;
  authed_user = "";
  sender = "";
  recipients = [];
  auth_failures = 0;
  spf_result = "";
}

-- `extractAddr`
unfoldable pub extract_addr : AddressLib → String → String
extract_addr lib header = elim (lib.parse_address header) [ some addr ↦ addr | none ↦ header ]

abbrev pub Reply : Type 0
Reply = Result SmtpError (Unit {0})

-- What the mailbox is asked to send: as whom, and to whom.
pub record Submission : Type 0 where
  pub from : String
  pub to : List String

module _ (lib : AddressLib) (srv : Server) where
  -- `hook.RecordAuthFailure`, whose result is not used.
  abbrev note_failure : Option SecurityConfig → ℕ → String → IpMap → IpMap
  note_failure none now addr m = m
  note_failure (some cfg) now addr m = (record_auth_failure lib cfg now addr m).0

  -- `authFailed`
  unfoldable pub auth_failed : ℕ → Session → IpMap → Session × IpMap × Reply
  auth_failed now s m =
      let n = s.auth_failures + 1 in
      (
        record s { auth_failures = n },
        note_failure srv.hook now s.remote_addr m,
        if ltb 0 srv.max_auth_failures_per_session && leb srv.max_auth_failures_per_session n
            then err (code 421)
            else err auth_required,
      )

  abbrev pub hook_locked : Option SecurityConfig → ℕ → String → IpMap → Bool
  hook_locked none now addr m = false
  hook_locked (some cfg) now addr m = is_locked_out lib cfg now addr m

  abbrev pub valid_password : Option (String → String → Bool) → String → String → Bool
  valid_password none email password = true
  valid_password (some v) email password = v email password

  -- The callback of the PLAIN mechanism, where users are resolved by `known`.
  unfoldable pub check_plain :
      (String → Bool) → ℕ → String → String → String → Session → IpMap → Session × IpMap × Reply
  check_plain known now identity username password s m =
      let email = if identity == "" then username else identity in
      if known email && valid_password srv.validator email password
      then (record s { authed_user = email }, m, ok tt)
      else auth_failed now s m

  unfoldable pub auth_with :
      Option (String → Bool)
      → ℕ
      → String
      → String
      → String
      → String
      → Session
      → IpMap
      → Session × IpMap × Reply
  auth_with none now mech identity username password s m = (s, m, err auth_required)
  auth_with (some known) now mech identity username password s m =
      if hook_locked srv.hook now s.remote_addr m
      then (s, m, err (code 421))
      else check_plain known now identity username password s m

  -- `Auth`, and the exchange of the PLAIN mechanism that follows it.
  unfoldable pub auth :
      ℕ → String → String → String → String → Session → IpMap → Session × IpMap × Reply
  unfolding auth_with check_plain
  auth now mech identity username password s m =
      if mech == "PLAIN"
      then auth_with srv.users now mech identity username password s m
      else (s, m, err unknown_mechanism)

  abbrev pub has_users : Bool
  has_users = elim srv.users [ none ↦ false | some known ↦ true ]

  -- `Mail`. `spf` is the result of the SPF check, or `none` where the remote address has no IP.
  unfoldable pub mail : Option String → String → Session → Session × Reply
  mail spf from s =
      if has_users && s.authed_user == ""
      then (s, err (code 530))
      else if not (s.authed_user == "")
          && not (lib.equal_fold (extract_addr lib from) s.authed_user)
      then (s, err (code 553))
      else (
        record s {
          sender = from;
          spf_result = elim spf [
            | none ↦ s.spf_result
            | some r ↦ if srv.check_spf && not (s.remote_addr == "") then r else s.spf_result
          ];
        },
        ok tt,
      )

  -- The recipient is one that the resolver knows, where it is asked.
  abbrev pub known_recipient : String → Bool
  known_recipient rcpt = elim srv.users [
    | none ↦ true
    | some known ↦ srv.relay_enabled || known (extract_addr lib rcpt)
  ]

  -- `Rcpt`
  unfoldable pub rcpt : String → Session → Session × Reply
  rcpt to s =
      if known_recipient to
      then (record s { recipients = s.recipients ++ to ∷ [] }, ok tt)
      else (s, err (code 550))

  -- `Reset`
  unfoldable pub reset : Session → Session
  reset s = record s { sender = ""; recipients = [] }

  -- `Data` takes its sender from the session, and from the header where the session has none.
  unfoldable pub submission : String → Session → Submission
  submission header_from s = record {
    from =
        if not (s.authed_user == "")
        then s.authed_user
        else if not (s.sender == "")
        then s.sender
        else extract_addr lib header_from;
    to = s.recipients;
  }

abbrev pub body_read_cap : ℕ
body_read_cap = 20 * 2 ^ 20

-- A message as `Data` reads it: an error of parsing or of reading the body, or its From header and
-- the length of its body.
pub data Incoming : Type 0 where
  unreadable : String → Incoming
  message : String → ℕ → Incoming

module _ (lib : AddressLib) (srv : Server) where
  -- `Data` up to the call of the mailbox. The body is read up to the cap.
  unfoldable pub data_submission : Incoming → Session → Result SmtpError Submission
  data_submission (unreadable e) s = err (failure e)
  data_submission (message header_from n) s =
      if leb body_read_cap (min n body_read_cap)
      then err (code 552)
      else ok (submission lib srv header_from s)

-- `sanitiseMessageID` before its cut: the printable ASCII characters without the space.
unfoldable pub printable : String → String
printable String.[] = ""
printable (String.◌∷◌ c s) =
    let rest = printable s in
    if leb 0x21 (Char.code c) && leb (Char.code c) 0x7e then String.◌∷◌ c rest else rest

-- A cut of a text of ASCII characters, one byte each.
unfoldable pub cut : ℕ → String → String
cut zero s = ""
cut (suc n) String.[] = ""
cut (suc n) (String.◌∷◌ c s) = String.◌∷◌ c (cut n s)

-- `sanitiseMessageID`
unfoldable pub sanitise_message_id : String → ℕ → String
unfolding printable cut
sanitise_message_id s max_bytes = cut max_bytes (printable s)
