-- ===== src/MemStore/Domains/Default.antt =====
-- `GetDefaultDomain`: the loop over the map finds the one default, in whatever order it runs.
use postbox.Common.{
  String, ◌≡◌, refl, ◌⊎◌, inl, inr, true, false, none, some, [], ◌∷◌, string_Eq, ok, arith, eq_iff,
  Bool-cases, ◌≢◌,
}
use postbox.Common.Map.{Map, get, UniqueKeys}
use postbox.Store.{Domain}
use postbox.MemStore.{MemStore, save_domain, first_default, get_default_domain}
use postbox.MemStore.Domains.{
  is_default, OneDefault, DomainsValid, save_domain-DomainsValid, get-save_domain,
}

-- A default of the map under its key.
abbrev DefaultAt : Map String Domain → String → Domain → Type 0
DefaultAt m k d = (get k m ≡ some d) × (d.is_default ≡ true)

abbrev Found : Map String Domain → Type 0
Found m =
    ((first_default m ≡ none) × ((k : String) → is_default (get k m) ≡ false))
    ⊎ ((k : String) × (d : Domain) × (first_default m ≡ some d) × DefaultAt m k d)

Found-cons :
    (k : String) (d : Domain) (m : Map String Domain)
    → get k m ≡ none
    → d.is_default ≡ false
    → Found m
    → Found ((k, d) ∷ m)
unfolding first_default get
Found-cons k d m fresh e (inl (p, q)) = inl (ground arith, λ j. ground (arith, q j, eq_iff k j))
Found-cons k d m fresh e (inr (j, f, p, (q, r))) =
    inr (j, f, ground arith, (ground (arith, eq_iff k j), r))

first_default-Found : (m : Map String Domain) → UniqueKeys m → Found m
unfolding first_default get
first_default-Found [] h = inl (refl, λ k. refl)
first_default-Found ((k, d) ∷ m) h = elim (Bool-cases d.is_default) [
  | inl e ↦ inr (k, d, ground arith, (ground (arith, eq_iff k k), e))
  | inr e ↦ Found-cons k d m h.0 e (first_default-Found m h.1)
]

module _ (k : String) (d : Domain) (m : Map String Domain) (one : OneDefault m) where
  Found-at : Found m → DefaultAt m k d → first_default m ≡ some d
  Found-at (inl (p, q)) (r, e) = ground (arith, q k)
  Found-at (inr (j, f, p, (q, e'))) (r, e) = ground (arith, one j k (ground arith) (ground arith))

-- In a valid map the loop returns the domain that has the mark.
pub first_default-DefaultAt :
    (k : String) (d : Domain) (m : Map String Domain)
    → DomainsValid m
    → DefaultAt m k d
    → first_default m ≡ some d
first_default-DefaultAt k d m v h = Found-at k d m v.one_default (first_default-Found m v.unique) h

same-Found :
    (m n : Map String Domain)
    → DomainsValid n
    → ((k : String) → get k m ≡ get k n)
    → Found m
    → Found n
    → first_default m ≡ first_default n
same-Found m n v same (inl (p, q)) (inl (p', q')) = ground arith
same-Found m n v same (inl (p, q)) (inr (k, d, p', (r, e))) = ground (arith, q k, same k)
same-Found m n v same (inr (k, d, p, (r, e))) other =
    ground (arith, first_default-DefaultAt k d n v (ground (arith, same k), e))

-- The default does not depend on the order in which `range` meets the keys: two valid maps with the
-- same lookups have the same default domain.
pub first_default_order :
    (m n : Map String Domain)
    → DomainsValid m
    → DomainsValid n
    → ((k : String) → get k m ≡ get k n)
    → first_default m ≡ first_default n
first_default_order m n v w same =
    same-Found m n w same (first_default-Found m v.unique) (first_default-Found n w.unique)

-- After a domain with a name is saved as the default in a store with valid domains, it is the
-- default domain.
pub get_default_domain-save_domain :
    (d : Domain) (s : MemStore)
    → DomainsValid s.domains
    → d.name ≢ ""
    → d.is_default ≡ true
    → get_default_domain (save_domain d s).0 ≡ ok d
unfolding get_default_domain
get_default_domain-save_domain d s v named e =
    let saved : get d.name (save_domain d s).0.domains ≡ some d =
      ground (arith, get-save_domain d s d.name named, eq_iff d.name d.name) in
    rw (first_default-DefaultAt d.name d _ (save_domain-DomainsValid d s v) (saved, e))
