-- ===== src/Tests/Agent.antt =====
-- The theorems on the agent's limits and on e-mail authentication, on one message.
use postbox.Common.{
  ℕ, zero, suc, String, Bool, true, false, ◌&&◌, ◌||◌, not, none, some, List, [], ◌∷◌, ◌≡◌, nat_Eq,
  string_Eq, ◌==◌, select, all,
}
use postbox.Common.Map.{Map}
use postbox.Store.{read}
use postbox.Plugin.SecurityAgent.{
  AgentConfig, Draft, member, blocked_set, blocked_extension, before_send,
}
use postbox.Plugin.SecurityAgent.Buckets.{Happening, sends, evicts, happen_all, bucket, own_bucket}
use postbox.Plugin.SecurityAgent.Extensions.{dot_segments, last_or, blocked_extension_lem}
use postbox.Plugin.SecurityAgent.Checks.{passes, clean, harmless, small, agent-before_send}
use postbox.Plugin.EmailAuth.{MailLib, AuthConfig, before_send as check_mail}
use postbox.Plugin.EmailAuth.Policies.{
  passes as allows, spf_allows, dkim_allows, dmarc_fails, email-before_send,
}

abbrev pub limits : AgentConfig
limits = record {
  max_recipients = 2;
  max_body_bytes = 100;
  rate_per_sender = 1;
  burst_per_sender = 1;
  sender_ttl = 600;
  blocked_extensions = some (".exe" ∷ []);
}

abbrev draft : Draft
draft = record {
  sender_id = "ann";
  recipient_ids = "bob" ∷ [];
  body = "hello";
  headers = ("Subject", "hi") ∷ [];
  filenames = "a.exe.txt" ∷ [];
}

-- A bucket of tokens that is never filled again.
abbrev pub spend : ℕ → ℕ → ℕ × Bool
spend now zero = (0, false)
spend now (suc n) = (n, true)

-- Another sender's message, one of this sender, an eviction that drops nothing, and one that drops both.
abbrev history : List Happening
history =
    sends 1 (record draft { sender_id = "bob" })
    ∷ sends 7 draft
    ∷ evicts 8
    ∷ evicts 5_000_000_000
    ∷ sends 6_000_000_000 draft
    ∷ []

agent_example :
    passes
      (before_send
        (λ t. t)
        spend
        1
        limits
        6_000_000_001
        draft
        (happen_all (λ t. t) spend 1 limits history [])).1
    ≡ ((limits.rate_per_sender == 0
          || (spend 6_000_000_001 (
              bucket
                (λ t. t)
                spend
                1
                limits
                (own_bucket (λ t. t) spend 1 limits "ann" history none))).1)
        && small limits draft
        && all clean draft.headers
        && all (harmless (λ t. t) (blocked_set (λ t. t) limits)) draft.filenames)
agent_example = agent-before_send (λ t. t) spend 1 limits 6_000_000_001 draft history

extension_example :
    blocked_extension (".exe" ∷ []) "a.exe.txt"
    ≡ some (last_or "" (select (λ ext. member ext (".exe" ∷ [])) (dot_segments "a.exe.txt")))
extension_example = blocked_extension_lem (".exe" ∷ []) "a.exe.txt"

abbrev pub mail_lib : MailLib
mail_lib = record {
  parse_address = λ t. some t;
  to_lower = λ t. t;
  equal_fold = λ a b. a == b;
  trim_space = λ t. t;
  lookup_txt = λ t. some ("v=DMARC1;p=reject" ∷ []);
  etld_plus_one = λ t. none;
}

abbrev pub strict : AuthConfig
strict = record { spf_policy = "require"; dkim_policy = "reject"; dmarc_policy = "reject" }

abbrev forged : Map String String
forged = ("From", "ann@bank.test") ∷ ("X-SPF-Result", "pass") ∷ []

email_example : allows (check_mail mail_lib strict forged) ≡ (
    spf_allows "require" (read "X-SPF-Result" forged)
    && dkim_allows "reject" (read "X-DKIM-Result" forged)
    && not (strict.dmarc_policy == "reject" && dmarc_fails mail_lib forged))
email_example = email-before_send mail_lib strict forged
