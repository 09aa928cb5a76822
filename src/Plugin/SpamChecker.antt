-- ===== src/Plugin/SpamChecker.antt =====
-- internal/plugin/spam_checker.go: messages that a scoring service calls spam. What the service answers to
-- the message is an argument, and so are comparison and printing of its scores, which are of any type.
pub mod Tagging
use postbox.Common.{
  ℕ, String, Bool, true, false, ◌||◌, Option, none, some, nat_Eq, string_Eq, ◌==◌, if◌then◌else◌,
  Result, ok, err,
}
use postbox.Common.Map.{Map, put}

-- `>` and the format `%.2f` of a float64.
pub record FloatLib (F : Type 0) : Type 0 where
  pub above : F → F → Bool
  pub two_decimals : F → String

pub record SpamConfig (F : Type 0) : Type 0 where
  pub threshold : F
  pub tag_only : Bool

pub record SpamResponse (F : Type 0) : Type 0 where
  pub score : F
  pub is_spam : Bool
  pub reason : String

-- A request that could not be built, no answer, or a status with the response as the decoder reads it.
pub data SpamReply (F : Type 0) : Type 0 where
  not_built : String → SpamReply F
  unreachable : SpamReply F
  replied : ℕ → Option (SpamResponse F) → SpamReply F

pub data Rejection (F : Type 0) : Type 0 where
  for_reason request_failed : String → Rejection F
  score_exceeds : F → F → Rejection F

module _ {F : Type 0} (lib : FloatLib F) where
  -- The headers that `TagOnly` sets.
  abbrev pub tag : SpamResponse F → Map String String → Map String String
  tag sr headers =
      let scored = put "X-Spam-Score" (lib.two_decimals sr.score) headers in
      let marked = put "X-Spam-Status" "Yes" scored in
      if sr.reason == "" then marked else put "X-Spam-Reason" sr.reason marked

  abbrev pub rejection : SpamConfig F → SpamResponse F → Rejection F
  rejection cfg sr =
      if sr.reason == "" then score_exceeds sr.score cfg.threshold else for_reason sr.reason

  -- What a response decides.
  unfoldable pub decide :
      SpamConfig F
      → SpamResponse F
      → Map String String
      → Map String String × Result (Rejection F) (Unit {0})
  decide cfg sr headers =
      if sr.is_spam || lib.above sr.score cfg.threshold
      then (if cfg.tag_only then (tag sr headers, ok tt) else (headers, err (rejection cfg sr)))
      else (headers, ok tt)

  abbrev pub decide_read :
      SpamConfig F
      → Option (SpamResponse F)
      → Map String String
      → Map String String × Result (Rejection F) (Unit {0})
  decide_read cfg none headers = (headers, ok tt)
  decide_read cfg (some sr) headers = decide cfg sr headers

  -- `BeforeSend`, on the headers of the draft.
  unfoldable pub before_send :
      SpamConfig F
      → SpamReply F
      → Map String String
      → Map String String × Result (Rejection F) (Unit {0})
  unfolding decide
  before_send cfg (not_built e) headers = (headers, err (request_failed e))
  before_send cfg unreachable headers = (headers, ok tt)
  before_send cfg (replied status response) headers =
      if status == 200 then decide_read cfg response headers else (headers, ok tt)
