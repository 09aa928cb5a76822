-- ===== src/Plugin/AddressFilter.antt =====
-- internal/plugin/address_filter.go: rules that allow or block messages by the addresses of the
-- sender and of the recipients. The regular expressions of the standard library are a parameter:
-- `compile` gives the test of a pattern, or `none` where the pattern is invalid.
pub mod Checks
pub mod Removal
use Prim.Native.Nat.{bit_and}
use postbox.Common.{
  ℕ, zero, suc, String, Bool, true, false, ◌&&◌, ◌||◌, not, Option, none, some, List, [], ◌∷◌, ◌++◌,
  nat_Eq, string_Eq, ◌==◌, if◌then◌else◌, Result, ok, err, set, take,
}
use postbox.Common.Map.{Map, get, put, remove}

pub data FilterMode : Type 0 where
  mode_block mode_allow : FilterMode

-- `AddressField`, a bit mask.
abbrev pub field_sender : ℕ
field_sender = 1

abbrev pub field_recipients : ℕ
field_recipients = 2

pub record AddressRule : Type 0 where
  pub id : String
  pub pattern : String
  pub field : ℕ

pub record CompiledRule : Type 0 where
  pub rule : AddressRule
  pub open rule use *
  pub matches : String → Bool

pub record AddrEntry : Type 0 where
  pub addr : String
  pub field : ℕ

-- The rejection carries the address that tripped the filter.
pub data Rejection : Type 0 where
  blocked not_allowed : String → Rejection

-- `r.Field & a.field != 0`
abbrev pub covers : CompiledRule → AddrEntry → Bool
covers r a = not (bit_and r.field a.field == 0)

-- The inner loop of `checkBlock`: some rule that covers the address matches it.
unfoldable pub is_blocked : AddrEntry → List CompiledRule → Bool
is_blocked a [] = false
is_blocked a (r ∷ rs) =
    let rest = is_blocked a rs in
    if not (covers r a) then rest else if r.matches a.addr then true else rest

unfoldable pub check_block : List AddrEntry → List CompiledRule → Result Rejection (Unit {0})
check_block [] rules = ok tt
check_block (a ∷ rest) rules =
    let next = check_block rest rules in if is_blocked a rules then err (blocked a.addr) else next

-- The inner loop of `checkAllow`: `applicable` and `allowed` at its end.
unfoldable pub allowance : AddrEntry → List CompiledRule → Bool → Bool × Bool
allowance a [] applicable = (applicable, false)
allowance a (r ∷ rs) applicable =
    let skip = allowance a rs applicable in
    let next = allowance a rs true in
    if not (covers r a) then skip else if r.matches a.addr then (true, true) else next

unfoldable pub check_allow : List AddrEntry → List CompiledRule → Result Rejection (Unit {0})
check_allow [] rules = ok tt
check_allow (a ∷ rest) rules =
    let (applicable, allowed) = allowance a rules false in
    let next = check_allow rest rules in
    if applicable && not allowed then err (not_allowed a.addr) else next

abbrev recipient_entries : List String → List AddrEntry
recipient_entries [] = []
recipient_entries (r ∷ rs) = record { addr = r; field = field_recipients } ∷ recipient_entries rs

-- The sender, and then the recipients.
abbrev pub entries : String → List String → List AddrEntry
entries sender recipients =
    record { addr = sender; field = field_sender } ∷ recipient_entries recipients

-- `BeforeSend`. With no rule every message passes.
unfoldable pub before_send :
    FilterMode → List CompiledRule → String → List String → Result Rejection (Unit {0})
before_send mode [] sender recipients = ok tt
before_send mode_block (r ∷ rs) sender recipients = check_block (entries sender recipients) (r ∷ rs)
before_send mode_allow (r ∷ rs) sender recipients = check_allow (entries sender recipients) (r ∷ rs)

-- `MemRuleStore`: the rules by their id.
abbrev pub RuleStore : Type 0
RuleStore = Map String AddressRule

unfoldable pub save_rule : AddressRule → RuleStore → RuleStore
save_rule r m = put r.id r m

unfoldable pub delete_rule : String → RuleStore → RuleStore
delete_rule id m = remove id m

unfoldable pub list_rules : RuleStore → List AddressRule
list_rules [] = []
list_rules ((k, r) ∷ m) = r ∷ list_rules m

-- The filter: its store, if it has one, and the compiled rules in use.
pub record AddressFilter : Type 0 where
  pub store : Option RuleStore
  pub compiled : List CompiledRule

pub data AddError : Type 0 where
  invalid_pattern : String → AddError

-- The loop of `RemoveRule` over the rules of the slice: the rules with another id move to the front
-- of its backing array. It returns the new length and the array.
unfoldable pub compact : String → List CompiledRule → ℕ → List CompiledRule → ℕ × List CompiledRule
compact id [] n backing = (n, backing)
compact id (c ∷ cs) n backing =
    if c.id == id then compact id cs n backing else compact id cs (suc n) (set backing n c)

-- `f.compiled[:n]`
unfoldable pub compacted : String → List CompiledRule → List CompiledRule
unfolding compact
compacted id rules = let (n, backing) = compact id rules 0 rules in take n backing

module _ (compile : String → Option (String → Bool)) where
  -- The loop of `reload`: a rule whose pattern is invalid is skipped.
  unfoldable pub compile_all : List AddressRule → List CompiledRule
  compile_all [] = []
  compile_all (r ∷ rs) =
      let rest = compile_all rs in
      elim (compile r.pattern) [ none ↦ rest | some m ↦ record { rule = r; matches = m } ∷ rest ]

  unfoldable pub reload : AddressFilter → AddressFilter
  reload f = elim f.store [ none ↦ f | some m ↦ record f { compiled = compile_all (list_rules m) } ]

  add_compiled : AddressRule → (String → Bool) → AddressFilter → AddressFilter
  add_compiled r m f = elim f.store [
    | none ↦ record f { compiled = f.compiled ++ record { rule = r; matches = m } ∷ [] }
    | some rules ↦ reload (record f { store = some (save_rule r rules) })
  ]

  unfoldable pub add_rule : AddressRule → AddressFilter → AddressFilter × Result AddError (Unit {0})
  unfolding add_compiled
  add_rule r f = elim (compile r.pattern) [
    | none ↦ (f, err (invalid_pattern r.pattern))
    | some m ↦ (add_compiled r m f, ok tt)
  ]

  unfoldable pub remove_rule : String → AddressFilter → AddressFilter
  unfolding compacted
  remove_rule id f = elim f.store [
    | none ↦ record f { compiled = compacted id f.compiled }
    | some rules ↦ reload (record f { store = some (delete_rule id rules) })
  ]
