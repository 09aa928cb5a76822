-- ===== src/Plugin/AddressFilter/Checks.antt =====
-- When a filter lets a message pass, in both of its modes.
use postbox.Common.{
  String, ◌≡◌, refl, sym, Bool, true, false, ◌&&◌, ◌||◌, not, List, [], ◌∷◌, string_Eq, nat_Eq,
  Result, ok, err, arith, any, all,
}
use postbox.Plugin.AddressFilter.{
  FilterMode, mode_block, mode_allow, CompiledRule, AddrEntry, Rejection, covers, is_blocked,
  check_block, allowance, check_allow, entries, before_send,
}

-- A rule of the list covers the address and matches it.
abbrev pub hit : List CompiledRule → AddrEntry → Bool
hit rules a = any (λ r. covers r a && r.matches a.addr) rules

-- A rule of the list covers the field of the address.
abbrev pub covered : List CompiledRule → AddrEntry → Bool
covered rules a = any (λ r. covers r a) rules

pub is_blocked-hit : (a : AddrEntry) (rules : List CompiledRule) → is_blocked a rules ≡ hit rules a
unfolding is_blocked
is_blocked-hit a [] = refl
is_blocked-hit a (r ∷ rs) = ground (arith, is_blocked-hit a rs)

-- The loop stops at a match, so `allowed` is a hit, and `applicable` is decided without one.
allowance_lem :
    (a : AddrEntry) (rules : List CompiledRule) (start : Bool)
    → ((allowance a rules start).1 ≡ hit rules a)
      × ((allowance a rules start).0 ≡ (start || covered rules a))
unfolding allowance
allowance_lem a [] start = ground arith
allowance_lem a (r ∷ rs) start = ground (arith, allowance_lem a rs start, allowance_lem a rs true)

abbrev pub passes : Result Rejection (Unit {0}) → Bool
passes (ok u) = true
passes (err e) = false

passes-check_block :
    (addrs : List AddrEntry) (rules : List CompiledRule)
    → passes (check_block addrs rules) ≡ all (λ a. not (hit rules a)) addrs
unfolding check_block
passes-check_block [] rules = refl
passes-check_block (a ∷ rest) rules =
    ground (arith, is_blocked-hit a rules, passes-check_block rest rules)

passes-check_allow :
    (addrs : List AddrEntry) (rules : List CompiledRule)
    → passes (check_allow addrs rules) ≡ all (λ a. not (covered rules a) || hit rules a) addrs
unfolding check_allow
passes-check_allow [] rules = refl
passes-check_allow (a ∷ rest) rules =
    ground (arith, allowance_lem a rules false, passes-check_allow rest rules)

all-true : {A : Type 0} (p : A → Bool) (xs : List A) → ((x : A) → p x ≡ true) → all p xs ≡ true
all-true p [] h = refl
all-true p (x ∷ xs) h = rw (h x) (all-true p xs h)

-- A blocking filter passes a message exactly when no rule matches an address that it covers; an
-- allowing one exactly when each address that some rule covers is matched by such a rule.
pub passes-before_send :
    (mode : FilterMode) (rules : List CompiledRule) (sender : String) (recipients : List String)
    → passes (before_send mode rules sender recipients)
      ≡ all
          (λ a. elim mode [
            | mode_block ↦ not (hit rules a)
            | mode_allow ↦ not (covered rules a) || hit rules a
          ])
          (entries sender recipients)
unfolding before_send
passes-before_send mode_block [] sender recipients =
    sym (all-true _ (entries sender recipients) (λ a. refl))
passes-before_send mode_allow [] sender recipients =
    sym (all-true _ (entries sender recipients) (λ a. refl))
passes-before_send mode_block (r ∷ rs) sender recipients =
    passes-check_block (entries sender recipients) (r ∷ rs)
passes-before_send mode_allow (r ∷ rs) sender recipients =
    passes-check_allow (entries sender recipients) (r ∷ rs)
