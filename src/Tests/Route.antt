-- ===== src/Tests/Route.antt =====
-- The theorems on routing, on a registry with one domain and a network with one node.
use postbox.Common.{
  String, true, ◌≡◌, List, [], ◌∷◌, string_Eq, nat_Eq, ◌==◌, if◌then◌else◌, ok, err, count, All,
  ◌+◌,
}
use postbox.Common.Map.{AllEntries}
use postbox.Registry.{Lookup, not_found}
use postbox.Forwarder.{Network, accepted, unavailable, handle}
use postbox.Forwarder.Delivery.{recipients_of, called, handle-count}
use postbox.Forwarder.Routing.{OwnedBy, StaysHere, handle-routed}

-- "b" and "c" own the recipients of their name; "c" is unavailable.
abbrev owner : Lookup
owner r = if r == "bob" then ok "b" else if r == "cid" then ok "c" else err not_found

abbrev addr_of : Lookup
addr_of n = if n == "b" then ok "b:1" else ok "c:1"

abbrev net : Network
net = record {
  can_dial = λ addr. true;
  answer = λ addr rs. if addr == "b:1" then accepted else unavailable;
}

abbrev all_three : List String
all_three = "ann" ∷ "bob" ∷ "cid" ∷ []

count_example :
    let h = handle "a" owner addr_of net all_three [] in
    count (λ r. r == "bob") (called h.local_call)
      + count (λ r. r == "bob") (recipients_of h.forwarded)
    ≡ count (λ r. r == "bob") all_three
count_example = handle-count (λ r. r == "bob") "a" owner addr_of net all_three []

routed_example :
    let h = handle "a" owner addr_of net all_three [] in
    AllEntries
      (λ addr rs. All (OwnedBy "a" owner addr_of net addr) rs × (net.answer addr rs ≡ accepted))
      h.forwarded
    × All (StaysHere "a" owner addr_of net) (called h.local_call)
routed_example = handle-routed "a" owner addr_of net all_three []
