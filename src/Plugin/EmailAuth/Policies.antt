-- ===== src/Plugin/EmailAuth/Policies.antt =====
-- When the policies on SPF, DKIM and DMARC let a message pass.
use postbox.Common.{
  String, Bool, true, false, ◌&&◌, ◌||◌, not, Option, none, some, ◌≡◌, refl, string_Eq, ◌==◌, arith,
  eq_iff, Bool-cases, inl, inr,
}
use Prim.Native.String.{◌++◌ as str_append}
use postbox.Common.Map.{Map}
use postbox.Store.{read}
use postbox.Plugin.EmailAuth.{
  MailLib, AuthConfig, Rejection, is_missing, check_spf, check_dkim, check_dmarc, judge, Dmarc,
  from_domain, parse_dmarc_record, is_aligned, before_send,
}

abbrev pub passes : Option Rejection → Bool
passes none = true
passes (some r) = false

abbrev pub spf_failed : String → Bool
spf_failed result = result == "fail" || result == "softfail"

-- What each policy on SPF lets pass.
abbrev pub spf_allows : String → String → Bool
spf_allows policy result =
    not ((policy == "reject" || policy == "require") && spf_failed result)
    && not (policy == "require" && is_missing result)

abbrev pub dkim_allows : String → String → Bool
dkim_allows policy result =
    not ((policy == "reject" || policy == "require") && result == "fail")
    && not (policy == "require" && is_missing result)

-- The record of the From domain asks for a policy, and the message is not aligned with it.
abbrev pub dmarc_fails : MailLib → Map String String → Bool
dmarc_fails lib headers = elim (from_domain lib headers) [
  | none ↦ false
  | some domain ↦ elim (lib.lookup_txt (str_append "_dmarc." domain)) [
    | none ↦ false
    | some txts ↦
        let d = parse_dmarc_record lib txts in
        not (d.p == "" || d.p == "none") && not (is_aligned lib d domain headers)
  ]
]

-- Two texts that differ are not both equal to a third.
exclusive : (x a b : String) → (a == b) ≡ false → (x == a && x == b) ≡ false
exclusive x a b h = elim (Bool-cases (x == a)) [
  | inl e ↦ rw ((eq_iff x a).0 e) (ground (arith, h))
  | inr e ↦ rw e refl
]

passes-check_spf :
    (cfg : AuthConfig) (headers : Map String String)
    → passes (check_spf cfg headers) ≡ spf_allows cfg.spf_policy (read "X-SPF-Result" headers)
unfolding check_spf
passes-check_spf cfg headers =
    let p = cfg.spf_policy in
    ground (
      arith,
      exclusive p "" "reject" refl,
      exclusive p "" "require" refl,
      exclusive p "off" "reject" refl,
      exclusive p "off" "require" refl,
      exclusive p "warn" "reject" refl,
      exclusive p "warn" "require" refl,
      exclusive p "reject" "require" refl,
    )

passes-check_dkim :
    (cfg : AuthConfig) (headers : Map String String)
    → passes (check_dkim cfg headers) ≡ dkim_allows cfg.dkim_policy (read "X-DKIM-Result" headers)
unfolding check_dkim
passes-check_dkim cfg headers =
    let p = cfg.dkim_policy in
    ground (
      arith,
      exclusive p "" "reject" refl,
      exclusive p "" "require" refl,
      exclusive p "off" "reject" refl,
      exclusive p "off" "require" refl,
      exclusive p "warn" "reject" refl,
      exclusive p "warn" "require" refl,
      exclusive p "reject" "require" refl,
    )

module _ (lib : MailLib) (policy domain : String) (headers : Map String String) where
  passes-judge :
      (d : Dmarc)
      → passes (judge lib policy domain d headers)
        ≡ not (
            policy == "reject"
            && not (d.p == "" || d.p == "none")
            && not (is_aligned lib d domain headers))
  passes-judge d = ground arith

passes-check_dmarc :
    (lib : MailLib) (cfg : AuthConfig) (headers : Map String String)
    → passes (check_dmarc lib cfg headers)
      ≡ not (cfg.dmarc_policy == "reject" && dmarc_fails lib headers)
unfolding check_dmarc
passes-check_dmarc lib cfg headers =
    let p = cfg.dmarc_policy in
    ground (arith, exclusive p "" "reject" refl, exclusive p "off" "reject" refl)

-- A message passes exactly when the policy on SPF allows its result, the policy on DKIM allows its
-- result, and, where the policy on DMARC is "reject", it does not fail DMARC: it has a From domain
-- with a record whose policy is not "none", and is aligned with that domain by neither SPF nor DKIM.
pub email-before_send :
    (lib : MailLib) (cfg : AuthConfig) (headers : Map String String)
    → passes (before_send lib cfg headers) ≡ (
        spf_allows cfg.spf_policy (read "X-SPF-Result" headers)
        && dkim_allows cfg.dkim_policy (read "X-DKIM-Result" headers)
        && not (cfg.dmarc_policy == "reject" && dmarc_fails lib headers))
unfolding before_send
email-before_send lib cfg headers = ground (
  arith,
  passes-check_spf cfg headers,
  passes-check_dkim cfg headers,
  passes-check_dmarc lib cfg headers,
)
