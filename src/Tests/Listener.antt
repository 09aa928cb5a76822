-- ===== src/Tests/Listener.antt =====
-- The theorems on the requests and limits of the listeners, and on their starts and stops.
use postbox.Common.{
  ℕ, ◌≢◌, ◌∙◌, ap, arith, String, Bool, true, false, ◌&&◌, none, some, [], ◌∷◌, List, ◌≡◌, refl,
  nat_Eq, string_Eq, ◌==◌, if◌then◌else◌,
}
use mathlib.Core.Option.{some-injective}
use postbox.Plugin.EmailAuth.{before_send}
use postbox.Plugin.EmailAuth.Policies.{passes, spf_allows, dkim_allows}
use postbox.Smtp.{Session, new_session, submission}
use postbox.Smtp.Request.{Mail, SendRequest, data_request, send_request, dkim_verdict}
use postbox.Smtp.Request.Verdicts.{listener-before_send}
use postbox.Smtp.Listener.{Limiters, peer_ip}
use postbox.Controller.{
  initial, Act, on_smtp, start_call, stop_call, stop_goes_on, serve_returns, done_closes,
  smtp_start, acts,
}
use postbox.Controller.OneListener.{AtMostOne, acts-AtMostOne}
use postbox.Server.Control.{SmtpConfigRequest, smtp_config_from_proto}
use postbox.Tests.Session.{lib, srv}
use postbox.Tests.Agent.{mail_lib, strict, spend}

abbrev letter : Mail
letter = record {
  field = λ name. if name == "From" then "ann@bank.test" else "";
  content = "hello";
  content_bytes = 5;
  raw_bytes = 60;
  signatures = some (some "bank.test" ∷ none ∷ []);
}

abbrev session : Session
session = record (new_session "1.2.3.4:5") {
  sender = "eve@evil.test";
  recipients = "bob" ∷ [];
  spf_result = "pass";
}

abbrev made : SendRequest
made = send_request true none session letter

listener_example :
    passes (before_send mail_lib strict made.headers)
    ≡ (spf_allows "require" session.spf_result && dkim_allows "reject" (dkim_verdict true letter).0)
unfolding data_request new_session submission
listener_example =
    listener-before_send mail_lib strict lib srv true none letter session "eve@evil.test" made refl

abbrev request : SmtpConfigRequest
request = record {
  port = 0;
  domain = "";
  allow_insecure_auth = false;
  max_message_bytes = 0;
  max_recipients = 0;
  read_timeout_secs = 0;
  write_timeout_secs = 0;
  max_conns_per_sec = 0;
  burst_conns = 0;
}

abbrev is_ann : String → Bool
is_ann u = u == "ann"

abbrev limiters : Limiters ℕ
limiters = record { limiter = some 5; ip_limiters = ("9.9.9.9", 1) ∷ [] }

elsewhere : (addr : String) → some "1.2.3.4" ≡ some addr → peer_ip lib spend 4 addr ≢ "9.9.9.9"
unfolding peer_ip
elsewhere addr e h =
    let q : "1.2.3.4" ≡ "9.9.9.9" = some-injective _ _ e ∙ h in
    let b : false ≡ true = ap (λ t. t == "9.9.9.9") q in absurd (ground (arith, b))

-- A start while a stop is under way, and one after it.
abbrev calls : List Act
calls =
    on_smtp (start_call (smtp_start (smtp_config_from_proto request) false true))
    ∷ on_smtp (stop_call 0)
    ∷ on_smtp (stop_goes_on 0)
    ∷ on_smtp (stop_goes_on 0)
    ∷ on_smtp (stop_goes_on 0)
    ∷ on_smtp (stop_goes_on 0)
    ∷ on_smtp (start_call (smtp_start (smtp_config_from_proto request) false true))
    ∷ on_smtp (serve_returns 0)
    ∷ on_smtp (done_closes 0)
    ∷ on_smtp (stop_goes_on 0)
    ∷ on_smtp (start_call (smtp_start (smtp_config_from_proto request) false true))
    ∷ []

one_example :
    let c = acts calls (record { smtp = initial; lmtp = initial }) in
    AtMostOne c.smtp × AtMostOne c.lmtp
one_example = acts-AtMostOne calls
