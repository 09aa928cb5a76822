-- ===== src/Plugin/AntiVirus.antt =====
-- internal/plugin/antivirus.go: messages in which a scanning service finds a threat. What the service
-- answers to the message is an argument.
use postbox.Common.{
  ℕ, String, Bool, true, false, ◌&&◌, Option, none, some, List, nat_Eq, ◌==◌, if◌then◌else◌, Result,
  ok, err, ◌≡◌, refl, arith,
}

pub record AvResponse : Type 0 where
  pub clean : Bool
  pub threats : List String

-- A request that could not be built, no answer, or a status with the response as the decoder reads it.
pub data AvReply : Type 0 where
  not_built : String → AvReply
  unreachable : AvReply
  replied : ℕ → Option AvResponse → AvReply

pub data Rejection : Type 0 where
  unavailable unreadable : Rejection
  request_failed : String → Rejection
  wrong_status : ℕ → Rejection
  threats_detected : List String → Rejection

-- A scan that fails.
abbrev pub failed_scan : Bool → Rejection → Result Rejection (Unit {0})
failed_scan fail_open r = if fail_open then ok tt else err r

abbrev pub judge : Bool → Option AvResponse → Result Rejection (Unit {0})
judge fail_open none = failed_scan fail_open unreadable
judge fail_open (some avr) = if avr.clean then ok tt else err (threats_detected avr.threats)

-- `BeforeSend`, where `fail_open` is the plugin's setting.
unfoldable pub before_send : Bool → AvReply → Result Rejection (Unit {0})
before_send fail_open (not_built e) = err (request_failed e)
before_send fail_open unreachable = failed_scan fail_open unavailable
before_send fail_open (replied status response) =
    if status == 200 then judge fail_open response else failed_scan fail_open (wrong_status status)

abbrev passes : Result Rejection (Unit {0}) → Bool
passes (ok u) = true
passes (err r) = false

-- The readable answer of status 200.
abbrev scanned : AvReply → Option AvResponse
scanned (not_built e) = none
scanned unreachable = none
scanned (replied status response) = if status == 200 then response else none

abbrev is_built : AvReply → Bool
is_built (not_built e) = false
is_built reply = true

-- A message passes exactly when its request can be built and a scan calls it clean, or there is no readable
-- scan of it and the plugin is set to fail open.
virus-before_send :
    (fail_open : Bool) (reply : AvReply)
    → passes (before_send fail_open reply)
      ≡ (is_built reply && elim (scanned reply) [ none ↦ fail_open | some avr ↦ avr.clean ])
unfolding before_send
virus-before_send fail_open (not_built e) = refl
virus-before_send fail_open unreachable = ground arith
virus-before_send fail_open (replied status none) = ground arith
virus-before_send fail_open (replied status (some avr)) = ground arith
