-- ===== src/Tests/Session.antt =====
-- The theorems on SMTP sessions and on node keys, on one session and one node.

use postbox.Common.{
  String, true, false, ◌≡◌, ◌≢◌, refl, none, some, Option, List, [], ◌∷◌, string_Eq, nat_Eq, ◌==◌,
  ◌||◌, ok, All,
}
use postbox.Plugin.SmtpSecurity.{AddressLib}
use postbox.Smtp.{
  Server, new_session, extract_addr, known_recipient, Submission, message, data_submission,
  submission, auth, auth_with, check_plain, mail, rcpt,
}
use postbox.Smtp.Sender.{
  auth_plain, mail_from, rcpt_to, Command, command, commands, is_known, commands-submission,
}
use postbox.MemStore.{get_node}
use postbox.Store.{Node}
use postbox.NodeKey.{Base64, keys, start_key, decode_private, decode_public}
use postbox.NodeKey.Startup.{start_key-replaces}
use postbox.Tests.{stored}

abbrev pub lib : AddressLib
lib = record {
  split_host = λ addr. none;
  parse_address = λ t. some t;
  to_lower = λ t. t;
  equal_fold = λ a b. a == b;
}

abbrev pub srv : Server
srv = record {
  relay_enabled = false;
  check_spf = false;
  max_auth_failures_per_session = 3;
  users = some (λ u. u == "ann" || u == "bob");
  validator = none;
  hook = none;
}

abbrev dialogue : List Command
dialogue =
    auth_plain 1 "PLAIN" "" "ann" "pw" ∷ mail_from none "ann" ∷ rcpt_to "bob" ∷ rcpt_to "eve" ∷ []

abbrev sent : Submission
sent = record { from = "ann"; to = "bob" ∷ [] }

submission_example :
    All (λ r. known_recipient lib srv r ≡ true) sent.to
    × ((commands lib srv dialogue (new_session "1.2.3.4") []).0.authed_user ≢ ""
        → (sent.from ≡ (commands lib srv dialogue (new_session "1.2.3.4") []).0.authed_user)
          × (is_known lib srv sent.from ≡ true))
unfolding data_submission submission commands command new_session auth auth_with check_plain mail
    rcpt extract_addr
submission_example = commands-submission lib srv dialogue "1.2.3.4" [] (message "ann" 10) sent refl

-- An encoding that marks a text with a first character, but the empty text, which it leaves empty.
unfoldable mark_text : String → String
mark_text String.[] = ""
mark_text (String.◌∷◌ c s) = String.◌∷◌ "x" (String.◌∷◌ c s)

unfoldable unmark : String → Option String
unmark String.[] = some ""
unmark (String.◌∷◌ c s) = some s

unmark-mark_text : (text : String) → unmark (mark_text text) ≡ some text
unfolding mark_text unmark
unmark-mark_text String.[] = refl
unmark-mark_text (String.◌∷◌ c s) = refl

mark_text-empty : (text : String) → mark_text text ≡ "" → text ≡ ""
unfolding mark_text
mark_text-empty String.[] h = refl
mark_text-empty (String.◌∷◌ c s) h = cc

abbrev mark : Base64
mark = record { encode = mark_text; decode = unmark }

abbrev key32 : String
key32 = "0123456789abcdef0123456789abcdef"

abbrev key64 : String
key64 = "0123456789abcdef0123456789abcdef0123456789abcdef0123456789abcdef"

abbrev started : Node
started = record {
  id = "a";
  private_key_b64 = mark.encode key64;
  public_key_b64 = mark.encode key32;
}

start_example :
    let (s', r) = start_key mark (keys key32 key64) "a" stored in
    (r ≡ ok started)
    × (get_node "a" s' ≡ ok started)
    × (decode_private mark (mark.encode key64) ≡ ok key64)
    × (decode_public mark (mark.encode key32) ≡ ok key32)
start_example =
    start_key-replaces mark key32 key64 unmark-mark_text refl refl mark_text-empty "a" stored
      (λ e. cc)
