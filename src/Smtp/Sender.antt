-- ===== src/Smtp/Sender.antt =====
-- As whom and to whom a session submits messages, whatever commands it gets.
use postbox.Common.{
  ℕ, ◌≡◌, ◌≢◌, refl, String, Bool, true, false, ◌&&◌, not, Option, none, some, List, [], ◌∷◌,
  string_Eq, nat_Eq, ◌==◌, leb, if◌then◌else◌, ok, err, arith, eq_iff, All, All-append, Bool-cases,
  inl, inr,
}
use Prim.Native.Nat.{min}
use mathlib.Core.Path.{subst}
use postbox.Plugin.SmtpSecurity.{AddressLib, IpMap}
use postbox.Smtp.{
  Server, Session, new_session, extract_addr, auth_failed, check_plain, auth_with, auth, mail, rcpt,
  known_recipient, reset, valid_password, hook_locked, has_users, SmtpError, Submission, submission,
  Incoming, data_submission, unreadable, message, body_read_cap,
}

-- A command of a session. `Data` is left out: it reads the session and does not change it.
pub data Command : Type 0 where
  auth_plain : ℕ → String → String → String → String → Command
  mail_from : Option String → String → Command
  rcpt_to : String → Command
  rset : Command

module _ (lib : AddressLib) (srv : Server) where
  unfoldable pub command : Command → Session → IpMap → Session × IpMap
  command (auth_plain now mech identity username password) s m =
      let (s', m', r) = auth lib srv now mech identity username password s m in (s', m')
  command (mail_from spf from) s m = ((mail lib srv spf from s).0, m)
  command (rcpt_to to) s m = ((rcpt lib srv to s).0, m)
  command rset s m = (reset lib srv s, m)

  unfoldable pub commands : List Command → Session → IpMap → Session × IpMap
  commands [] s m = (s, m)
  commands (c ∷ cs) s m = let (s', m') = command c s m in commands cs s' m'

  -- The user is one whom the resolver knows.
  abbrev pub is_known : String → Bool
  is_known user = elim srv.users [ none ↦ false | some known ↦ known user ]

  record IsValid (s : Session) : Type 0 where
    authed : s.authed_user ≢ "" → is_known s.authed_user ≡ true
    accepted : All (λ r. known_recipient lib srv r ≡ true) s.recipients

  new_session-IsValid : (a : String) → IsValid (new_session a)
  unfolding new_session
  new_session-IsValid a = record { authed = λ h. absurd (h refl); accepted = tt }

  auth_failed-IsValid :
      (now : ℕ) (s : Session) (m : IpMap) → IsValid s → IsValid (auth_failed lib srv now s m).0
  unfolding auth_failed
  auth_failed-IsValid now s m v = record { authed = v.authed; accepted = v.accepted }

  if-IsValid {κ} :
      {R : Type κ} (b : Bool) (x y : Session × R)
      → (b ≡ true → IsValid x.0)
      → (b ≡ false → IsValid y.0)
      → IsValid (if b then x else y).0
  if-IsValid true x y f g = f refl
  if-IsValid false x y f g = g refl

  check_plain-IsValid :
      (known : String → Bool) (now : ℕ) (identity username password : String) (s : Session)
      (m : IpMap)
      → srv.users ≡ some known
      → IsValid s
      → IsValid (check_plain lib srv known now identity username password s m).0
  unfolding check_plain
  check_plain-IsValid known now identity username password s m u v =
      let email = if identity == "" then username else identity in
      elim (Bool-cases (known email && valid_password lib srv srv.validator email password)) [
        | inl e ↦ rw e (record { authed = λ h. rw u (ground arith); accepted = v.accepted })
        | inr e ↦ rw e (auth_failed-IsValid now s m v)
      ]

  auth_with-IsValid :
      (users : Option (String → Bool)) (now : ℕ) (mech identity username password : String)
      (s : Session) (m : IpMap)
      → srv.users ≡ users
      → IsValid s
      → IsValid (auth_with lib srv users now mech identity username password s m).0
  unfolding auth_with
  auth_with-IsValid none now mech identity username password s m u v = v
  auth_with-IsValid (some known) now mech identity username password s m u v =
      elim (Bool-cases (hook_locked lib srv srv.hook now s.remote_addr m)) [
        | inl l ↦ rw l v
        | inr l ↦ rw l (check_plain-IsValid known now identity username password s m u v)
      ]

  auth-IsValid :
      (now : ℕ) (mech identity username password : String) (s : Session) (m : IpMap)
      → IsValid s
      → IsValid (auth lib srv now mech identity username password s m).0
  unfolding auth
  auth-IsValid now mech identity username password s m v = elim (Bool-cases (mech == "PLAIN")) [
    | inl p ↦ rw p (auth_with-IsValid srv.users now mech identity username password s m refl v)
    | inr p ↦ rw p v
  ]

  mail-IsValid :
      (spf : Option String) (from : String) (s : Session)
      → IsValid s
      → IsValid (mail lib srv spf from s).0
  unfolding mail
  mail-IsValid spf from s v =
      if-IsValid (has_users lib srv && s.authed_user == "") _ _ (λ a. v)
        (λ a.
          if-IsValid
            (not (s.authed_user == "")
              && not (lib.equal_fold (extract_addr lib from) s.authed_user))
            _ _ (λ b. v) (λ b. record { authed = v.authed; accepted = v.accepted }))

  rcpt-IsValid : (to : String) (s : Session) → IsValid s → IsValid (rcpt lib srv to s).0
  unfolding rcpt
  rcpt-IsValid to s v =
      if-IsValid (known_recipient lib srv to) _ _
        (λ k. record {
          authed = v.authed;
          accepted =
              All-append (λ r. known_recipient lib srv r ≡ true) s.recipients (to ∷ []) v.accepted
                (k, tt);
        })
        (λ k. v)

  command-IsValid : (c : Command) (s : Session) (m : IpMap) → IsValid s → IsValid (command c s m).0
  unfolding command reset
  command-IsValid (auth_plain now mech identity username password) s m v =
      auth-IsValid now mech identity username password s m v
  command-IsValid (mail_from spf from) s m v = mail-IsValid spf from s v
  command-IsValid (rcpt_to to) s m v = rcpt-IsValid to s v
  command-IsValid rset s m v = record { authed = v.authed; accepted = tt }

  commands-IsValid :
      (cs : List Command) (s : Session) (m : IpMap) → IsValid s → IsValid (commands cs s m).0
  unfolding commands
  commands-IsValid [] s m v = v
  commands-IsValid (c ∷ cs) s m v =
      commands-IsValid cs (command c s m).0 (command c s m).1 (command-IsValid c s m v)

  submission-IsValid :
      (header : String) (s : Session)
      → IsValid s
      → let sub = submission lib srv header s in
        All (λ r. known_recipient lib srv r ≡ true) sub.to
        × (s.authed_user ≢ "" → (sub.from ≡ s.authed_user) × (is_known sub.from ≡ true))
  unfolding submission
  submission-IsValid header s v = (
    v.accepted,
    λ h. elim (Bool-cases (s.authed_user == "")) [
      | inl e ↦ absurd (h (ground (arith, eq_iff s.authed_user "")))
      | inr e ↦ rw e (refl, v.authed h)
    ],
  )

  if-ok :
      (b : Bool) (e : SmtpError) (x : Submission) {y : Submission}
      → (if b then err e else ok x) ≡ ok y
      → x ≡ y
  if-ok true e x h = cc
  if-ok false e x h = cc

  -- Whatever commands a session has seen, a message that it submits is for recipients that the
  -- server accepts (with a resolver and no relaying: those that the resolver knows), and where the
  -- session is authenticated it is sent as that user, whom the resolver knows.
  pub commands-submission :
      (cs : List Command) (addr : String) (m : IpMap) (msg : Incoming) (sub : Submission)
      → data_submission lib srv msg (commands cs (new_session addr) m).0 ≡ ok sub
      → All (λ r. known_recipient lib srv r ≡ true) sub.to
        × ((commands cs (new_session addr) m).0.authed_user ≢ ""
            → (sub.from ≡ (commands cs (new_session addr) m).0.authed_user)
              × (is_known sub.from ≡ true))
  unfolding data_submission
  commands-submission cs addr m (unreadable e) sub h = cc
  commands-submission cs addr m (message header n) sub h =
      let v = commands-IsValid cs (new_session addr) m (new_session-IsValid addr) in
      let goal = submission-IsValid header (commands cs (new_session addr) m).0 v in
      subst
        (λ x.
          All (λ r. known_recipient lib srv r ≡ true) x.to
          × ((commands cs (new_session addr) m).0.authed_user ≢ ""
              → (x.from ≡ (commands cs (new_session addr) m).0.authed_user)
                × (is_known x.from ≡ true)))
        (if-ok (leb body_read_cap (min n body_read_cap)) _ _ h) goal
