-- ===== src/Smtp/Request.antt =====
-- internal/smtp/server.go: the request that `Data` makes of a message and hands to the mailbox. The
-- parsers of messages and of DKIM signatures are not modelled: a message is given with the fields
-- that `net/mail` reads and with the verifications of its signatures.
pub mod Text
pub mod Verdicts
use Prim.Native.Nat.{min}
use Prim.Native.Char
use postbox.Common.{
  ℕ, ◌+◌, ◌/◌, ◌%◌, String, Bool, true, false, ◌&&◌, ◌||◌, not, Option, none, some, List, [], ◌∷◌,
  ◌++◌, nat_Eq, string_Eq, ◌==◌, ltb, leb, if◌then◌else◌, take, Result, ok, err,
}
use postbox.Common.Map.{Map}
use postbox.Plugin.SmtpSecurity.{AddressLib}
use postbox.Smtp.{
  Server, Session, SmtpError, code, failure, Submission, submission, body_read_cap,
  sanitise_message_id,
}

-- The UTF-8 encoding of a code point.
abbrev pub encode : ℕ → List ℕ
encode c =
    if ltb c 0x80
    then c ∷ []
    else if ltb c 0x800
    then (0xc0 + c / 64) ∷ (0x80 + c % 64) ∷ []
    else if ltb c 0x10000
    then (0xe0 + c / 4096) ∷ (0x80 + c / 64 % 64) ∷ (0x80 + c % 64) ∷ []
    else (0xf0 + c / 262144) ∷ (0x80 + c / 4096 % 64) ∷ (0x80 + c / 64 % 64) ∷ (0x80 + c % 64) ∷ []

-- `sanitiseHeaderValue` before its cut, as bytes.
unfoldable pub visible : String → List ℕ
visible String.[] = []
visible (String.◌∷◌ c s) =
    let rest = visible s in
    if Char.code c == 9 || (leb 0x20 (Char.code c) && not (Char.code c == 0x7f))
    then encode (Char.code c) ++ rest
    else rest

-- `sanitiseHeaderValue`. The cut is one of bytes, and may end in a part of a character.
unfoldable pub sanitise_header_value : String → ℕ → List ℕ
unfolding visible
sanitise_header_value s max_bytes = take max_bytes (visible s)

-- `strings.TrimRight` of the characters that end lines.
unfoldable pub trim_line_ends : String → String
trim_line_ends String.[] = ""
trim_line_ends (String.◌∷◌ c s) =
    let rest = trim_line_ends s in
    if (Char.code c == 13 || Char.code c == 10) && rest == "" then "" else String.◌∷◌ c rest

-- `net/mail`'s view of a message: the values of its header fields, its body and the bytes of that.
-- `signatures` is what `dkim.Verify` finds, none where it fails; a signature has its domain where it
-- is valid.
pub record Mail : Type 0 where
  pub field : String → String
  pub content : String
  pub content_bytes : ℕ
  pub raw_bytes : ℕ
  pub signatures : Option (List (Option String))

-- What `Data` reads: an error of parsing or of reading, or a message.
pub data Read : Type 0 where
  bad : String → Read
  mail : Mail → Read

-- The loop over the verifications, with `allPass` and `dkimDomain`.
unfoldable pub dkim_loop : List (Option String) → Bool × String → Bool × String
dkim_loop [] acc = acc
dkim_loop (none ∷ vs) (all_pass, domain) = dkim_loop vs (false, domain)
dkim_loop (some d ∷ vs) (all_pass, domain) =
    dkim_loop vs (all_pass, if domain == "" then d else domain)

abbrev dkim_result : Bool × String → String × String
dkim_result (all_pass, domain) = (if all_pass then "pass" else "fail", domain)

-- `dkimResult` and `dkimDomain`, where signatures are verified.
abbrev dkim_of : Option (List (Option String)) → String × String
dkim_of none = ("none", "")
dkim_of (some []) = ("none", "")
dkim_of (some (v ∷ vs)) = dkim_result (dkim_loop (v ∷ vs) (true, ""))

unfoldable pub dkim_verdict : Bool → Mail → String × String
unfolding dkim_loop
dkim_verdict verify_dkim msg =
    if verify_dkim && ltb 0 msg.raw_bytes then dkim_of msg.signatures else ("none", "")

pub record SendRequest : Type 0 where
  pub recipient_ids : List String
  pub subject : List ℕ
  pub body : String
  pub external_id : String
  pub reply_to_id : String
  pub headers : Map String String

-- `ThreadResolver.ResolveReplyTo` of a recipient and an identifier.
abbrev pub Threads : Type 0
Threads = Option (String → String → Option String)

-- `ReplyToID`: the parent that the resolver finds for the first recipient.
unfoldable pub reply_to : Threads → List String → String → String
reply_to none to in_reply_to = ""
reply_to (some resolve) [] in_reply_to = ""
reply_to (some resolve) (first ∷ rest) in_reply_to =
    if in_reply_to == ""
    then ""
    else elim (resolve first in_reply_to) [ none ↦ "" | some parent ↦ parent ]

unfoldable pub internal_headers : Session → String × String → Map String String
internal_headers s dkim =
    ("X-SMTP-Envelope-From", s.sender)
    ∷ ("X-SMTP-Remote-Addr", s.remote_addr)
    ∷ ("X-SPF-Result", s.spf_result)
    ∷ ("X-DKIM-Result", dkim.0)
    ∷ ("X-DKIM-Domain", dkim.1)
    ∷ []

unfoldable pub send_request : Bool → Threads → Session → Mail → SendRequest
unfolding dkim_verdict sanitise_header_value trim_line_ends reply_to internal_headers
send_request verify_dkim threads s msg = record {
  recipient_ids = s.recipients;
  subject = sanitise_header_value (msg.field "Subject") 998;
  body = trim_line_ends msg.content;
  external_id = sanitise_message_id (msg.field "Message-ID") 995;
  reply_to_id = reply_to threads s.recipients (sanitise_message_id (msg.field "In-Reply-To") 995);
  headers = internal_headers s (dkim_verdict verify_dkim msg);
}

-- `Data` up to the call of the mailbox: as whom it sends, and what.
unfoldable pub data_request :
    AddressLib → Server → Bool → Threads → Read → Session → Result SmtpError (String × SendRequest)
unfolding send_request
data_request lib srv verify_dkim threads (bad e) s = err (failure e)
data_request lib srv verify_dkim threads (mail msg) s =
    if leb body_read_cap (min msg.content_bytes body_read_cap)
    then err (code 552)
    else ok ((submission lib srv (msg.field "From") s).from, send_request verify_dkim threads s msg)
