-- ===== src/Plugin/EmailAuth.antt =====
-- internal/plugin/email_auth.go: the policies on the results of SPF, DKIM and DMARC that the SMTP
-- server puts into headers. The parsers of addresses, the public suffix list and DNS are parameters;
-- so are the functions of package strings that follow Unicode.
pub mod Policies
use Prim.Native.String.{◌++◌ as str_append}
use postbox.Common.{
  String, Bool, true, false, ◌&&◌, ◌||◌, Option, none, some, List, [], ◌∷◌, string_Eq, ◌==◌,
  if◌then◌else◌, has_prefix, trim_prefix, after_first, split,
}
use postbox.Common.Map.{Map}
use postbox.Store.{read}

-- `mail.ParseAddress` (the address, or an error), `strings.ToLower`, `strings.EqualFold`,
-- `strings.TrimSpace`, `net.LookupTXT` (the records, or an error) and
-- `publicsuffix.EffectiveTLDPlusOne` (the domain, or an error).
pub record MailLib : Type 0 where
  pub parse_address : String → Option String
  pub to_lower : String → String
  pub equal_fold : String → String → Bool
  pub trim_space : String → String
  pub lookup_txt : String → Option (List String)
  pub etld_plus_one : String → Option String

pub record AuthConfig : Type 0 where
  pub spf_policy : String
  pub dkim_policy : String
  pub dmarc_policy : String

pub data Rejection : Type 0 where
  spf_failed spf_required dkim_failed dkim_required dmarc_failed : String → Rejection

abbrev pub is_off : String → Bool
is_off policy = policy == "" || policy == "off"

abbrev pub is_missing : String → Bool
is_missing result = result == "" || result == "none"

-- `checkSPF`
unfoldable pub check_spf : AuthConfig → Map String String → Option Rejection
check_spf cfg headers =
    let policy = cfg.spf_policy in
    let result = read "X-SPF-Result" headers in
    let failed = result == "fail" || result == "softfail" in
    if is_off policy
    then none
    else if policy == "warn"
    then none
    else if policy == "reject"
    then (if failed then some (spf_failed result) else none)
    else if policy == "require"
    then (if is_missing result || failed then some (spf_required result) else none)
    else none

-- `checkDKIM`
unfoldable pub check_dkim : AuthConfig → Map String String → Option Rejection
check_dkim cfg headers =
    let policy = cfg.dkim_policy in
    let result = read "X-DKIM-Result" headers in
    if is_off policy
    then none
    else if policy == "warn"
    then none
    else if policy == "reject"
    then (if result == "fail" then some (dkim_failed result) else none)
    else if policy == "require"
    then (if is_missing result || result == "fail" then some (dkim_required result) else none)
    else none

-- The tags `p`, `aspf` and `adkim` of a DMARC record.
pub record Dmarc : Type 0 where
  pub p : String
  pub aspf : String
  pub adkim : String

abbrev or_next : Option Rejection → Option Rejection → Option Rejection
or_next (some r) next = some r
or_next none next = next

-- `parts[len(parts)-2:]`, joined by dots.
unfoldable pub last_two : List String → String
last_two [] = ""
last_two (a ∷ []) = a
last_two (a ∷ b ∷ []) = str_append a (str_append "." b)
last_two (a ∷ b ∷ c ∷ rest) = last_two (b ∷ c ∷ rest)

abbrev more_than_two : List String → Bool
more_than_two (a ∷ b ∷ c ∷ rest) = true
more_than_two _ = false

module _ (lib : MailLib) where
  -- One tag of the record.
  unfoldable pub set_tag : String → Dmarc → Dmarc
  set_tag tag d =
      if has_prefix tag "p="
      then record d { p = lib.to_lower (trim_prefix tag "p=") }
      else if has_prefix tag "aspf="
      then record d { aspf = lib.to_lower (trim_prefix tag "aspf=") }
      else if has_prefix tag "adkim="
      then record d { adkim = lib.to_lower (trim_prefix tag "adkim=") }
      else d

  -- The loop over the tags.
  unfoldable pub set_tags : List String → Dmarc → Dmarc
  set_tags [] d = d
  set_tags (tag ∷ tags) d = set_tags tags (set_tag (lib.trim_space tag) d)

  -- `parseDMARCRecord`: the first record of version DMARC1 decides.
  unfoldable pub parse_dmarc_record : List String → Dmarc
  parse_dmarc_record [] = record { p = ""; aspf = "r"; adkim = "r" }
  parse_dmarc_record (txt ∷ txts) =
      let rest = parse_dmarc_record txts in
      if has_prefix txt "v=DMARC1"
      then set_tags (split b';' txt) (record { p = ""; aspf = "r"; adkim = "r" })
      else rest

  -- `domainOf`
  unfoldable pub domain_of : String → String
  domain_of addr = elim (after_first b'@' addr) [
    | some domain ↦ lib.to_lower domain
    | none ↦ lib.to_lower addr
  ]

  -- `orgDomain`
  unfoldable pub org_domain : String → String
  org_domain domain =
      let parts = split b'.' domain in
      elim (lib.etld_plus_one domain) [
        | some etld1 ↦ etld1
        | none ↦ if more_than_two parts then last_two parts else domain
      ]

  -- `domainMatch`
  unfoldable pub domain_match : String → String → String → Bool
  domain_match got want mode =
      let got' = lib.to_lower got in
      let want' = lib.to_lower want in
      if got == "" || want == ""
      then false
      else if lib.equal_fold got' want'
      then true
      else if mode == "s"
      then false
      else org_domain got' == org_domain want'

  -- The domain of the From header, if it has an address with one.
  unfoldable pub from_domain : Map String String → Option String
  from_domain headers =
      let header = read "From" headers in
      if header == "" then none else elim (lib.parse_address header) [
        | none ↦ none
        | some addr ↦ elim (after_first b'@' addr) [
          | none ↦ none
          | some domain ↦ some (lib.to_lower domain)
        ]
      ]

  -- `spfPass || dkimPass`
  unfoldable pub is_aligned : Dmarc → String → Map String String → Bool
  is_aligned d domain headers =
      (read "X-SPF-Result" headers == "pass"
        && domain_match (domain_of (read "X-SMTP-Envelope-From" headers)) domain d.aspf)
      || (read "X-DKIM-Result" headers == "pass"
          && domain_match (lib.to_lower (read "X-DKIM-Domain" headers)) domain d.adkim)

  -- The rest of `checkDMARC` once the records of the domain are there.
  abbrev judge : String → String → Dmarc → Map String String → Option Rejection
  judge policy domain d headers =
      if d.p == "" || d.p == "none"
      then none
      else if is_aligned d domain headers
      then none
      else if policy == "reject"
      then some (dmarc_failed domain)
      else none

  -- `checkDMARC`
  unfoldable pub check_dmarc : AuthConfig → Map String String → Option Rejection
  check_dmarc cfg headers = if is_off cfg.dmarc_policy then none else elim (from_domain headers) [
    | none ↦ none
    | some domain ↦ elim (lib.lookup_txt (str_append "_dmarc." domain)) [
      | none ↦ none
      | some txts ↦ judge cfg.dmarc_policy domain (parse_dmarc_record txts) headers
    ]
  ]

  -- `BeforeSend`; `none` lets the message pass.
  unfoldable pub before_send : AuthConfig → Map String String → Option Rejection
  before_send cfg headers =
      or_next (check_spf cfg headers) (or_next (check_dkim cfg headers) (check_dmarc cfg headers))
