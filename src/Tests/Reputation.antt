-- ===== src/Tests/Reputation.antt =====
-- The theorems on CrowdSec and the DNS block-lists, on one peer.
use postbox.Common.{
  String, Bool, true, false, ◌||◌, none, some, if◌then◌else◌, [], ◌∷◌, ◌≡◌, refl, string_Eq, ◌==◌,
  all, ok, arith,
}
use postbox.Common.Map.{Map, get}
use postbox.Store.{read}
use postbox.Tests.Session.{lib}
use postbox.Plugin.SmtpSecurity.{AddressLib, host_only}
use postbox.Plugin.CrowdSec.{CrowdSecConfig, LapiReply, replied, decisions, query_lapi, before_send}
use postbox.Plugin.CrowdSec.Answers.{
  Answers, answers, last_answer, believed, passes, admits, or_ask, answers-before_send,
}
use postbox.Plugin.Dnsbl.{
  DnsblConfig, DnsAnswer, no_such_host, addresses, Ip4, reverse_ipv4, before_send as check_lists,
}
use postbox.Plugin.Dnsbl.Cached.{
  passes as listed_passes, admits as zone_admits, listing, Agrees, cached-before_send,
}

abbrev peer : Map String String
peer = ("X-SMTP-Remote-Addr", "10.0.0.9:25") ∷ []

abbrev net : AddressLib
net = record lib { split_host = λ addr. if addr == "" then none else some "10.0.0.9" }

abbrev guard : CrowdSecConfig
guard = record { fail_open = false; cache_ttl = 30 }

abbrev banned : String → LapiReply
banned ip = replied 200 (decisions ("ban" ∷ []))

abbrev asked : Answers
asked = (5, "10.0.0.9", ok false) ∷ []

crowdsec_example : passes (before_send net guard banned 40 41 peer (answers guard asked [])).1 ≡ (
    read "X-SMTP-Remote-Addr" peer == ""
    || admits guard (
        or_ask
          (believed guard 40 (last_answer (host_only net "10.0.0.9:25") asked none))
          (query_lapi (banned (host_only net "10.0.0.9:25")))))
unfolding get
crowdsec_example = answers-before_send net guard banned 40 41 peer asked

abbrev lists : DnsblConfig
lists = record { zones = "a.example" ∷ "b.example" ∷ []; cache_ttl = 300; fail_open = true }

abbrev dns : String → DnsAnswer
dns host = if_listed (host == "9.0.0.10.b.example")
  where
    if_listed : Bool → DnsAnswer
    if_listed true = addresses ("127.0.0.2" ∷ [])
    if_listed false = no_such_host

abbrev address : Ip4
address = record { a = 10; b = 0; c = 0; d = 9 }

nothing-Agrees : Agrees dns (reverse_ipv4 address) []
unfolding Agrees get
nothing-Agrees zone v e = absurd (ground arith)

dnsbl_example :
    let r = check_lists net (λ t. some address) lists (λ t. dns) (λ k. k) peer [] in
    (listed_passes r.1
      ≡ all (λ zone. zone_admits lists (listing dns (reverse_ipv4 address) zone)) lists.zones)
    × Agrees dns (reverse_ipv4 address) r.0
unfolding get
dnsbl_example =
    cached-before_send net (λ t. some address) lists dns (λ k. k) peer [] address refl refl
      nothing-Agrees
