-- ===== src/MemStore/Domains.antt =====
-- Domains in memstore.go: at most one is the default, and the default is what was saved as such.
pub mod Default
use postbox.Common.{
  String, ◌≢◌, ◌≡◌, refl, inl, inr, Bool, true, false, ◌&&◌, not, Option, none, some, [], ◌∷◌,
  string_Eq, ◌==◌, if◌then◌else◌, arith, eq_iff, Bool-cases,
}
use postbox.Common.Map.{
  Map, get, put, get-put, UniqueKeys, UniqueKeys-put, AllEntries, AllEntries-put,
}
use postbox.Store.{Domain}
use postbox.MemStore.{MemStore, save_domain, clear_default}

abbrev is_default : Option Domain → Bool
is_default none = false
is_default (some d) = d.is_default

-- At most one domain has the default mark.
abbrev pub OneDefault : Map String Domain → Type 0
OneDefault m = (j k : String) → is_default (get j m) ≡ true → is_default (get k m) ≡ true → j ≡ k

abbrev unmark : Domain → Domain
unmark d = record d { is_default = false }

-- What the loop leaves of the entry of a key.
abbrev pub cleared : Bool → Option Domain → Option Domain
cleared keep none = none
cleared keep (some d) = some (if d.is_default && not keep then unmark d else d)

pub get-clear_default :
    (j name : String) (m : Map String Domain)
    → get j (clear_default name m) ≡ cleared (j == name) (get j m)
unfolding get clear_default
get-clear_default j name [] = refl
get-clear_default j name ((k, d) ∷ m) =
    ground (arith, get-clear_default j name m, eq_iff k j, eq_iff k name, eq_iff j name)

UniqueKeys-clear_default :
    (name : String) (m : Map String Domain) → UniqueKeys m → UniqueKeys (clear_default name m)
unfolding clear_default
UniqueKeys-clear_default name [] h = tt
UniqueKeys-clear_default name ((k, d) ∷ m) h =
    (ground (arith, get-clear_default k name m, h.0), UniqueKeys-clear_default name m h.1)

-- Every domain stands under its own name.
abbrev pub IsNamed : Map String Domain → Type 0
IsNamed m = AllEntries (λ k d. k ≡ d.name) m

IsNamed-clear_default :
    (name : String) (m : Map String Domain) → IsNamed m → IsNamed (clear_default name m)
unfolding clear_default
IsNamed-clear_default name [] h = tt
IsNamed-clear_default name ((k, d) ∷ m) h = (ground (arith, h.0), IsNamed-clear_default name m h.1)

pub record DomainsValid (m : Map String Domain) : Type 0 where
  pub unique : UniqueKeys m
  pub named : IsNamed m
  pub one_default : OneDefault m

abbrev saved : Domain → Map String Domain → Map String Domain
saved d m = put d.name d (if d.is_default then clear_default d.name m else m)

get-saved :
    (j : String) (d : Domain) (m : Map String Domain)
    → get j (saved d m)
      ≡ (if d.name == j then some d else if d.is_default then cleared false (get j m) else get j m)
get-saved j d m = elim (Bool-cases d.is_default) [
  | inl e ↦ simp e (
      ground (
        arith,
        get-put d.name j d (clear_default d.name m),
        get-clear_default j d.name m,
        eq_iff d.name j,
        eq_iff j d.name,
      ))
  | inr e ↦ simp e (get-put d.name j d m)
]

OneDefault-saved : (d : Domain) (m : Map String Domain) → OneDefault m → OneDefault (saved d m)
OneDefault-saved d m h j k p q =
    ground (arith, get-saved j d m, get-saved k d m, h j k, eq_iff d.name j, eq_iff d.name k)

saved-valid : (d : Domain) (m : Map String Domain) → DomainsValid m → DomainsValid (saved d m)
saved-valid d m v = elim (Bool-cases d.is_default) [
  | inl e ↦ record {
    unique = simp e (UniqueKeys-put d.name d _ (UniqueKeys-clear_default d.name m v.unique));
    named = simp e (AllEntries-put _ d.name d _ refl (IsNamed-clear_default d.name m v.named));
    one_default = OneDefault-saved d m v.one_default;
  }
  | inr e ↦ record {
    unique = simp e (UniqueKeys-put d.name d m v.unique);
    named = simp e (AllEntries-put _ d.name d m refl v.named);
    one_default = OneDefault-saved d m v.one_default;
  }
]

-- Saving a domain keeps the domains valid, whether it is refused or not.
pub save_domain-DomainsValid :
    (d : Domain) (s : MemStore) → DomainsValid s.domains → DomainsValid (save_domain d s).0.domains
unfolding save_domain
save_domain-DomainsValid d s v = elim (Bool-cases (d.name == "")) [
  | inl e ↦ rw e v
  | inr e ↦ rw e (saved-valid d s.domains v)
]

-- What a save does to each lookup: the saved domain stands under its name, and every other domain
-- stays but for the default mark, which it loses when the saved one is the default.
pub get-save_domain :
    (d : Domain) (s : MemStore) (j : String)
    → d.name ≢ ""
    → get j (save_domain d s).0.domains ≡ (
        if d.name == j
        then some d
        else if d.is_default
        then cleared false (get j s.domains)
        else get j s.domains)
unfolding save_domain
get-save_domain d s j named = elim (Bool-cases (d.name == "")) [
  | inl e ↦ absurd (named ((eq_iff d.name "").0 e))
  | inr e ↦ simp e (get-saved j d s.domains)
]
