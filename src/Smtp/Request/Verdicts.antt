-- ===== src/Smtp/Request/Verdicts.antt =====
-- The verdicts of a request's headers, and what the policies of the e-mail authentication plugin
-- make of them.
use postbox.Common.{
  String, Bool, true, false, ◌&&◌, not, Option, none, some, List, [], ◌∷◌, ◌≡◌, ◌∙◌, refl,
  Bool-cases, inl, inr, string_Eq, ◌==◌, ltb, leb, if◌then◌else◌, arith, all, ok, err,
}
use Prim.Native.Nat.{min}
use mathlib.Core.Path.{subst}
use postbox.Plugin.SmtpSecurity.{AddressLib}
use postbox.Smtp.{Server, Session, SmtpError, body_read_cap}
use postbox.Smtp.Request.{
  Mail, mail, SendRequest, Threads, data_request, send_request, internal_headers, dkim_verdict,
  dkim_loop, dkim_of, dkim_result,
}
use postbox.Common.Map.{get}
use postbox.Plugin.EmailAuth.{MailLib, AuthConfig, from_domain, before_send}
use postbox.Plugin.EmailAuth.Policies.{
  passes, spf_allows, dkim_allows, dmarc_fails, email-before_send,
}

abbrev pub is_valid : Option String → Bool
is_valid none = false
is_valid (some d) = true

all_pass-dkim_loop :
    (vs : List (Option String)) (b : Bool) (d : String)
    → (dkim_loop vs (b, d)).0 ≡ (b && all is_valid vs)
unfolding dkim_loop
all_pass-dkim_loop [] b d = ground arith
all_pass-dkim_loop (none ∷ vs) b d = all_pass-dkim_loop vs false d ∙ ground arith
all_pass-dkim_loop (some x ∷ vs) b d = all_pass-dkim_loop vs b (if d == "" then x else d)

-- The message has a signature, and all its signatures are valid.
abbrev pub signed : Option (List (Option String)) → Bool
signed none = false
signed (some []) = false
signed (some (v ∷ vs)) = all is_valid (v ∷ vs)

dkim_result-pass : (p : Bool × String) → ((dkim_result p).0 == "pass") ≡ p.0
dkim_result-pass (true, d) = refl
dkim_result-pass (false, d) = refl

dkim_of-pass : (o : Option (List (Option String))) → ((dkim_of o).0 == "pass") ≡ signed o
dkim_of-pass none = refl
dkim_of-pass (some []) = refl
dkim_of-pass (some (v ∷ vs)) =
    dkim_result-pass (dkim_loop (v ∷ vs) (true, "")) ∙ all_pass-dkim_loop (v ∷ vs) true ""

-- The verdict on DKIM is "pass" exactly when signatures are verified, the message is not empty, and
-- it has at least one signature and no invalid one.
pub dkim_verdict-pass :
    (verify_dkim : Bool) (msg : Mail)
    → ((dkim_verdict verify_dkim msg).0 == "pass")
      ≡ (verify_dkim && ltb 0 msg.raw_bytes && signed msg.signatures)
unfolding dkim_verdict
dkim_verdict-pass verify_dkim msg = elim (Bool-cases (verify_dkim && ltb 0 msg.raw_bytes)) [
  | inl e ↦ rw e (dkim_of-pass msg.signatures ∙ ground arith)
  | inr e ↦ rw e (ground arith)
]

if-ok :
    {A : Type 0} (b : Bool) (e : SmtpError) (x : A) {y : A}
    → (if b then err e else ok x) ≡ ok y
    → x ≡ y
if-ok true e x h = cc
if-ok false e x h = cc

-- DMARC finds no From domain.
dmarc_fails-internal :
    (lib : MailLib) (s : Session) (dkim : String × String)
    → dmarc_fails lib (internal_headers s dkim) ≡ false
unfolding internal_headers from_domain get
dmarc_fails-internal lib s dkim = refl

never : (a b c d : Bool) → d ≡ false → (a && b && not (c && d)) ≡ (a && b)
never a b c d h = ground arith

-- The plugin lets a message of the listener pass exactly when its policies on SPF and DKIM allow the
-- session's result of SPF and the verdict on the message's signatures. The policy on DMARC is never
-- applied: the request has no From header, whatever the message has.
pub listener-before_send :
    (lib : MailLib) (cfg : AuthConfig) (addr : AddressLib) (srv : Server) (verify_dkim : Bool)
    (threads : Threads) (msg : Mail) (s : Session) (from : String) (req : SendRequest)
    → data_request addr srv verify_dkim threads (mail msg) s ≡ ok (from, req)
    → passes (before_send lib cfg req.headers) ≡ (
        spf_allows cfg.spf_policy s.spf_result
        && dkim_allows cfg.dkim_policy (dkim_verdict verify_dkim msg).0)
unfolding data_request send_request internal_headers get
listener-before_send lib cfg addr srv verify_dkim threads msg s from req h =
    let e = if-ok (leb body_read_cap (min msg.content_bytes body_read_cap)) _ _ h in
    subst
      (λ r. passes (before_send lib cfg r.1.headers) ≡ (
        spf_allows cfg.spf_policy s.spf_result
        && dkim_allows cfg.dkim_policy (dkim_verdict verify_dkim msg).0))
      e
      (email-before_send lib cfg (internal_headers s (dkim_verdict verify_dkim msg))
        ∙ never (spf_allows cfg.spf_policy s.spf_result)
            (dkim_allows cfg.dkim_policy (dkim_verdict verify_dkim msg).0)
            (cfg.dmarc_policy == "reject") _
            (dmarc_fails-internal lib s (dkim_verdict verify_dkim msg)))
