-- ===== src/Tests/Hooks.antt =====
-- The theorems on the hooks, on small messages.
use postbox.Common.{
  ℕ, String, true, false, ◌≡◌, ◌^◌, ◌&&◌, not, refl, none, some, List, [], ◌∷◌, string_Eq, nat_Eq,
  ◌==◌, ◌||◌, ltb, leb, ◌+◌, ◌-◌, arith, all, contains,
}
use Prim.Native.String.{len}
use postbox.Common.Map.{get}
use postbox.Store.{read}
use postbox.Plugin.AddressFilter
use postbox.Plugin.AddressFilter.{
  AddressRule, CompiledRule, AddrEntry, mode_allow, mode_block, entries, is_blocked, compacted,
  field_sender, field_recipients,
}
use postbox.Plugin.AddressFilter.Checks.{hit, covered, passes-before_send}
use postbox.Plugin.AddressFilter.Removal.{torn_read, torn_read-misses}
use postbox.Plugin.AttachmentFilter
use postbox.Plugin.AttachmentFilter.{MimeLib, Attachment, FilterConfig, normalise_media_type}
use postbox.Plugin.AttachmentFilter.Checks.{few, within_total, admissible, attachments-before_send}
use postbox.Plugin.SmtpSecurity.{AddressLib, SecurityConfig, Draft, is_locked_out, in_memory}
use postbox.Plugin.SmtpSecurity
use postbox.Plugin.SmtpSecurity.Checks.{may_send, same_sender, sender-before_send}
use postbox.Plugin.SmtpSecurity.Lockout.{
  Happening, fails, evicts, happen_all, is_locked_out-happen_all,
}

abbrev rule : String → ℕ → CompiledRule
rule name field = record {
  rule = record { id = name; pattern = name; field = field };
  matches = λ addr. contains addr name;
}

abbrev rules : List CompiledRule
rules = rule "spam" 1 ∷ rule "evil" 3 ∷ rule "news" 1 ∷ []

block_example :
    AddressFilter.Checks.passes (AddressFilter.before_send mode_block rules "evil@x" ("ann" ∷ []))
    ≡ all (λ a. not (hit rules a)) (entries "evil@x" ("ann" ∷ []))
block_example = passes-before_send mode_block rules "evil@x" ("ann" ∷ [])

torn_example :
    let entry : AddrEntry = record { addr = "evil@x"; field = 1 } in
    (is_blocked entry rules ≡ true)
    × (is_blocked entry (compacted "spam" rules) ≡ true)
    × (is_blocked entry (torn_read "spam" 1 rules) ≡ false)
unfolding contains
torn_example =
    torn_read-misses (rule "spam" 1) (rule "evil" 3) (rule "news" 1) []
      (record { addr = "evil@x"; field = 1 }) (refl, (refl, tt)) refl refl

-- Media types stand as they are.
abbrev mime : MimeLib
mime = record { parse_media_type = λ t. some t; to_lower = λ t. t; trim_space = λ t. t }

abbrev limits : FilterConfig
limits = record {
  max_count = 3;
  max_total_bytes = 100;
  max_single_bytes = 0;
  allowed_mimes = [];
  blocked_mimes = "exe" ∷ [];
}

abbrev file : ℕ → Attachment
file size = record { filename = "f"; size = size; content_type = "txt" }

-- One of the files has a negative size.
abbrev files : List Attachment
files = file 60 ∷ file (2 ^ 64 - 1) ∷ []

attachments_example :
    AttachmentFilter.Checks.passes (AttachmentFilter.before_send mime limits files) ≡ (
      few mime limits files && all (admissible mime limits) files && within_total mime limits files)
attachments_example = attachments-before_send mime limits files (omega arith)

abbrev lib : AddressLib
lib = record {
  split_host = λ addr. none;
  parse_address = λ t. some t;
  to_lower = λ t. t;
  equal_fold = λ a b. a == b;
}

abbrev cfg : SecurityConfig
cfg = record {
  max_auth_failures_per_ip = 3;
  lockout_duration = 900;
  ip_lookup_ttl = 3600;
  envelope_spoof_check = true;
  allowed_sender_domains = [];
  blocked_sender_domains = "evil" ∷ [];
  max_subject_bytes = 998;
  require_authenticated_sender = true;
}

-- Three failures of one host, with one of another host and an eviction between them.
abbrev history : List Happening
history =
    fails 10 "1.2.3.4"
    ∷ fails 20 "5.6.7.8"
    ∷ fails 30 "1.2.3.4"
    ∷ evicts 40
    ∷ fails 50 "1.2.3.4"
    ∷ []

locks_example :
    is_locked_out lib cfg 900 "1.2.3.4" (happen_all lib cfg history [])
    ≡ (leb 3 3 && ltb 900 (50 + 900))
unfolding get SmtpSecurity.host_only
locks_example =
    is_locked_out-happen_all lib cfg history 900 "1.2.3.4" [] (λ e. omega arith) (omega arith) refl
      refl

abbrev draft : Draft
draft = record {
  sender_id = "bob@evil";
  subject = "s";
  headers = ("X-SMTP-Remote-Addr", "1.2.3.4") ∷ [];
}

sender_example :
    SmtpSecurity.Checks.passes
      (SmtpSecurity.before_send lib cfg 2000 (in_memory (happen_all lib cfg history [])) draft)
    ≡ (not (leb 3 3 && ltb 2000 (50 + 900))
        && may_send lib.to_lower cfg "evil"
        && (not true || same_sender lib (read "X-SMTP-Envelope-From" draft.headers) draft.sender_id)
        && (◌==◌ {K = ℕ} 998 0 || leb (len draft.subject) 998))
unfolding get SmtpSecurity.host_only
sender_example =
    sender-before_send lib cfg 2000 history draft "1.2.3.4" "bob" "evil" (λ e. omega arith)
      (omega arith) refl refl (λ e. cc) refl refl
