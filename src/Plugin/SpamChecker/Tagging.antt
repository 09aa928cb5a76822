-- ===== src/Plugin/SpamChecker/Tagging.antt =====
-- What the spam checker rejects and what it marks.
use postbox.Common.{
  String, Bool, true, false, ◌&&◌, ◌||◌, not, none, some, nat_Eq, string_Eq, ◌==◌, if◌then◌else◌,
  Result, ok, err, ◌≡◌, refl, arith, Bool-cases, inl, inr,
}
use postbox.Common.Map.{Map, get, put, get-put}
use postbox.Plugin.SpamChecker.{
  FloatLib, SpamConfig, SpamResponse, SpamReply, not_built, unreachable, replied, Rejection, tag,
  decide, before_send,
}

module _ {F : Type 0} where
  abbrev pub passes : Result (Rejection F) (Unit {0}) → Bool
  passes (ok u) = true
  passes (err r) = false

  -- The service answered with status 200 and a readable response, which is spam by its mark or its score.
  abbrev pub called_spam : FloatLib F → SpamConfig F → SpamReply F → Bool
  called_spam lib cfg (not_built e) = false
  called_spam lib cfg unreachable = false
  called_spam lib cfg (replied status none) = false
  called_spam lib cfg (replied status (some sr)) =
      status == 200 && (sr.is_spam || lib.above sr.score cfg.threshold)

  abbrev pub is_built : SpamReply F → Bool
  is_built (not_built e) = false
  is_built reply = true

  get-tag :
      (lib : FloatLib F) (sr : SpamResponse F) (headers : Map String String)
      → get "X-Spam-Status" (tag lib sr headers) ≡ some "Yes"
  get-tag lib sr headers =
      let scored = put "X-Spam-Score" (lib.two_decimals sr.score) headers in
      ground (
        arith,
        get-put "X-Spam-Reason" "X-Spam-Status" sr.reason (put "X-Spam-Status" "Yes" scored),
        get-put "X-Spam-Status" "X-Spam-Status" "Yes" scored,
      )

  -- The checker rejects a message exactly when its request cannot be built, or the service calls it spam and
  -- messages are not only marked;
  -- the mark of a message becomes "Yes" exactly when the service calls it spam and messages are only
  -- marked, and stays as it was otherwise, also where the sender has set it.
  pub spam-before_send :
      (lib : FloatLib F) (cfg : SpamConfig F) (reply : SpamReply F) (headers : Map String String)
      → let (headers', r) = before_send lib cfg reply headers in
        (passes r ≡ (is_built reply && not (called_spam lib cfg reply && not cfg.tag_only)))
        × (get "X-Spam-Status" headers' ≡ (
            if called_spam lib cfg reply && cfg.tag_only
            then some "Yes"
            else get "X-Spam-Status" headers))
  unfolding before_send decide
  spam-before_send lib cfg (not_built e) headers = (refl, refl)
  spam-before_send lib cfg unreachable headers = (refl, refl)
  spam-before_send lib cfg (replied status none) headers = elim (Bool-cases (status == 200)) [
    | inl e ↦ rw e (refl, refl)
    | inr e ↦ rw e (refl, refl)
  ]
  spam-before_send lib cfg (replied status (some sr)) headers =
      ground (arith, get-tag lib sr headers)
