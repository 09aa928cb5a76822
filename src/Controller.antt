-- ===== src/Controller.antt =====
-- internal/server/node.go: how the controller starts and stops a listener, with the Start and Stop of
-- internal/smtp/server.go and internal/smtp/lmtp.go that it calls. Calls run at the same time, so
-- StartSMTP is one step under its mutex, StopSMTP is a step for each lock that it takes, and the
-- goroutine that serves a listener has steps of its own. Loading a certificate, binding a port and
-- the permissions of a socket are arguments.
pub mod Listeners
pub mod OneListener
use postbox.Common.{
  ℕ, zero, suc, String, Bool, true, false, ◌&&◌, not, Option, none, some, List, [], ◌∷◌, ◌++◌,
  nat_Eq, string_Eq, ◌==◌, if◌then◌else◌, length, Result, ok, err,
}
use postbox.Common.Map.{Map, get, put}
use postbox.Smtp.Listener.{Config}
use postbox.Smtp.Lmtp.{LmtpConfig}

-- A started `Server` or `LMTPServer`: whether its `net.Listener` is open, and its fields.
pub record Listener : Type 0 where
  pub is_open : Bool
  pub running : Bool
  pub done : Bool

pub data ControlError : Type 0 where
  already_running not_running no_certificate no_port no_permission : ControlError

abbrev pub fresh : Listener
fresh = record { is_open = false; running = false; done = false }

abbrev started : Listener
started = record { is_open = true; running = true; done = false }

-- `Server.Start`, where the certificate loads and the port is bound or not.
unfoldable pub start_server :
    Config → Bool → Bool → Listener → Listener × Result ControlError (Unit {0})
start_server cfg loads binds l =
    if l.running
    then (l, err already_running)
    else if not (cfg.tls_cert_file == "") && not (cfg.tls_key_file == "") && not loads
    then (l, err no_certificate)
    else if not binds
    then (l, err no_port)
    else (started, ok tt)

-- `LMTPServer.Start`, where the port or socket is bound and the socket's permissions are set or not.
unfoldable pub start_lmtp_server :
    LmtpConfig → Bool → Bool → Listener → Listener × Result ControlError (Unit {0})
start_lmtp_server cfg binds permits l =
    if l.running
    then (l, err already_running)
    else if not binds
    then (l, err no_port)
    else if not (cfg.socket_path == "") && not permits
    then (l, err no_permission)
    else (started, ok tt)

-- Where a call of StopSMTP stands. It has read the listener; found it running, as IsRunning says;
-- found it running again in Stop; closed it; or returned with its result.
pub data Stopper : Type 0 where
  reading : Stopper
  has_read seen_running stopping closed : ℕ → Stopper
  stopped : ℕ → Stopper
  refused : Stopper

-- The listeners that were ever started, the number of the controller's one, and the calls of StopSMTP.
pub record World : Type 0 where
  pub listeners : List Listener
  pub current : Option ℕ
  pub stoppers : Map ℕ Stopper

abbrev pub initial : World
initial = record { listeners = []; current = none; stoppers = [] }

unfoldable pub nth : ℕ → List Listener → Listener
nth i [] = fresh
nth zero (l ∷ ls) = l
nth (suc i) (l ∷ ls) = nth i ls

-- A change of one listener.
unfoldable pub change : (Listener → Listener) → ℕ → List Listener → List Listener
change f i [] = []
change f zero (l ∷ ls) = f l ∷ ls
change f (suc i) (l ∷ ls) = l ∷ change f i ls

abbrev pub is_running : World → Bool
is_running w = elim w.current [ none ↦ false | some i ↦ (nth i w.listeners).running ]

abbrev keep_started :
    Listener × Result ControlError (Unit {0}) → World → World × Result ControlError (Unit {0})
keep_started (l, ok x) w =
    (record w { listeners = w.listeners ++ l ∷ []; current = some (length w.listeners) }, ok tt)
keep_started (l, err e) w = (w, err e)

-- `StartSMTP` and `StartLMTP`, with the `Start` of the listener that they make.
unfoldable pub start_with :
    (Listener → Listener × Result ControlError (Unit {0}))
    → World
    → World × Result ControlError (Unit {0})
unfolding nth
start_with start w = if is_running w then (w, err already_running) else keep_started (start fresh) w

-- `srv == nil` of StopSMTP.
abbrev pub read_current : Option ℕ → Stopper
read_current none = refused
read_current (some i) = has_read i

-- What a call of StopSMTP does next.
unfoldable pub stop_next : Stopper → World → World × Stopper
unfolding nth change
stop_next reading w = (w, read_current w.current)
stop_next (has_read i) w = (w, if (nth i w.listeners).running then seen_running i else refused)
stop_next (seen_running i) w = (w, if (nth i w.listeners).running then stopping i else refused)
stop_next (stopping i) w =
    (record w { listeners = change (λ l. record l { is_open = false }) i w.listeners }, closed i)
stop_next (closed i) w = (w, if (nth i w.listeners).done then stopped i else closed i)
stop_next (stopped i) w = (w, stopped i)
stop_next refused w = (w, refused)

-- The goroutine closes the channel after it has reset `running`.
abbrev pub finish : Listener → Listener
finish l = if l.running then l else record l { done = true }

-- A call of a Start with its arguments, a new call of a Stop, the next step of one, and the steps of
-- the goroutine of a listener: Serve returns, and the channel is closed.
pub data Event (Args : Type 0) : Type 0 where
  start_call : Args → Event Args
  stop_call stop_goes_on : ℕ → Event Args
  serve_returns done_closes : ℕ → Event Args

-- A step of the call `t`, where it has been made.
abbrev pub go_on : ℕ → Option Stopper → World → World
go_on t none w = w
go_on t (some p) w = let (w', p') = stop_next p w in record w' { stoppers = put t p' w'.stoppers }

module _ {Args : Type 0} (start : Args → Listener → Listener × Result ControlError (Unit {0})) where
  unfoldable pub step : Event Args → World → World
  unfolding start_with stop_next
  step (start_call args) w = (start_with (start args) w).0
  step (stop_call t) w = record w { stoppers = put t reading w.stoppers }
  step (stop_goes_on t) w = go_on t (get t w.stoppers) w
  step (serve_returns i) w = record w {
    listeners = change (λ l. record l { running = false }) i w.listeners;
  }
  step (done_closes i) w = record w { listeners = change finish i w.listeners }

  unfoldable pub run : List (Event Args) → World → World
  unfolding step
  run [] w = w
  run (e ∷ es) w = run es (step e w)

-- The arguments of a start: the settings, and what the system answers.
pub data SmtpStart : Type 0 where
  smtp_start : Config → Bool → Bool → SmtpStart

pub data LmtpStart : Type 0 where
  lmtp_start : LmtpConfig → Bool → Bool → LmtpStart

-- `StartSMTP` makes a server and starts it.
unfoldable pub start_smtp : SmtpStart → Listener → Listener × Result ControlError (Unit {0})
unfolding start_server
start_smtp (smtp_start cfg loads binds) l = start_server cfg loads binds l

unfoldable pub start_lmtp : LmtpStart → Listener → Listener × Result ControlError (Unit {0})
unfolding start_lmtp_server
start_lmtp (lmtp_start cfg binds permits) l = start_lmtp_server cfg binds permits l

-- The part of the controller that its two mutexes guard, and what the callers of either do.
pub record Control : Type 0 where
  pub smtp : World
  pub lmtp : World

pub data Act : Type 0 where
  on_smtp : Event SmtpStart → Act
  on_lmtp : Event LmtpStart → Act

unfoldable pub act : Act → Control → Control
unfolding step
act (on_smtp e) c = record c { smtp = step start_smtp e c.smtp }
act (on_lmtp e) c = record c { lmtp = step start_lmtp e c.lmtp }

unfoldable pub acts : List Act → Control → Control
unfolding act
acts [] c = c
acts (a ∷ rest) c = acts rest (act a c)
