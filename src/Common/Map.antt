-- ===== src/Common/Map.antt =====
-- Go maps as association lists. The order of the list stands for the order in which one `range`
-- meets the keys.
use mathlib.Core.Path.{◌≡◌, refl, ap, subst₂}
use mathlib.Core.Logic.{inl, inr}
use mathlib.Core.Option
use mathlib.Core.Option.{Option, none, some, some-injective}
use mathlib.Core.List.{List, [], ◌∷◌}
use native.Mathlib.Omega.{arith}
use postbox.Common.Tests.{Eq, ◌==◌, if◌then◌else◌, Bool-cases}

abbrev pub Map {ℓ κ} : Type ℓ → Type κ → Type (ℓ ⊔ κ)
Map K V = List (K × V)

module _ {ℓ κ} {K : Type ℓ} {V : Type κ} ⦃e : Eq K⦄ where
  unfoldable pub get : K → Map K V → Option V
  get k [] = none
  get k ((j, v) ∷ m) = if j == k then some v else get k m

  unfoldable pub put : K → V → Map K V → Map K V
  put k v [] = (k, v) ∷ []
  put k v ((j, w) ∷ m) = if j == k then (k, v) ∷ m else (j, w) ∷ put k v m

  unfoldable pub remove : K → Map K V → Map K V
  remove k [] = []
  remove k ((j, w) ∷ m) = let rest = remove k m in if j == k then rest else (j, w) ∷ rest

  pub get-put :
      (k j : K) (v : V) (m : Map K V) → get j (put k v m) ≡ (if k == j then some v else get j m)
  unfolding get put
  get-put k j v [] = refl
  get-put k j v ((i, w) ∷ m) =
      ground (arith, e.beq_iff k j, e.beq_iff i k, e.beq_iff i j, get-put k j v m)

  pub get-remove : (k j : K) (m : Map K V) → get j (remove k m) ≡ (if k == j then none else get j m)
  unfolding get remove
  get-remove k j [] = ground arith
  get-remove k j ((i, w) ∷ m) =
      ground (arith, e.beq_iff k j, e.beq_iff i k, e.beq_iff i j, get-remove k j m)

  -- No key stands twice, as in every Go map.
  abbrev pub UniqueKeys : Map K V → Type κ
  UniqueKeys [] = Unit
  UniqueKeys ((k, v) ∷ m) = (get k m ≡ none) × UniqueKeys m

module _ {ℓ κ} {K : Type ℓ} {V : Type κ} ⦃e : Eq K⦄ where
  pub UniqueKeys-put : (k : K) (v : V) (m : Map K V) → UniqueKeys m → UniqueKeys (put k v m)
  unfolding get put
  UniqueKeys-put k v [] h = (refl, tt)
  UniqueKeys-put k v ((j, w) ∷ m) h = elim (Bool-cases (e.beq j k)) [
    | inl p ↦ rw p (rw ((e.beq_iff j k).0 p) at h.0, h.1)
    | inr p ↦ rw p (
      ground (arith, get-put k j v m, e.beq_iff k j, e.beq_iff j k, h.0),
      UniqueKeys-put k v m h.1,
    )
  ]

  -- A property of all entries.
  abbrev pub AllEntries {μ} : (K → V → Type μ) → Map K V → Type μ
  AllEntries P [] = Unit
  AllEntries P ((k, v) ∷ m) = P k v × AllEntries P m

module _ {ℓ κ μ} {K : Type ℓ} {V : Type κ} ⦃e : Eq K⦄ (P : K → V → Type μ) where
  pub AllEntries-put :
      (k : K) (v : V) (m : Map K V) → P k v → AllEntries P m → AllEntries P (put k v m)
  unfolding put
  AllEntries-put k v [] h a = (h, tt)
  AllEntries-put k v ((j, w) ∷ m) h a = elim (Bool-cases (e.beq j k)) [
    | inl p ↦ rw p (h, a.1)
    | inr p ↦ rw p (a.0, AllEntries-put k v m h a.1)
  ]

  pub AllEntries-get : (k : K) {v : V} (m : Map K V) → AllEntries P m → get k m ≡ some v → P k v
  unfolding get
  AllEntries-get k [] a h = cc
  AllEntries-get k {v} ((j, w) ∷ m) a h = elim (Bool-cases (e.beq j k)) [
    | inl p ↦
        let q : some w ≡ some v = rw p at h in
        subst₂ P ((e.beq_iff j k).0 p) (some-injective _ _ q) a.0
    | inr p ↦ AllEntries-get k m a.1 (rw p at h)
  ]

-- A change of every value.
abbrev pub map_values {ℓ κ μ} : {K : Type ℓ} {V : Type κ} {W : Type μ} → (V → W) → Map K V → Map K W
map_values f [] = []
map_values f ((k, v) ∷ m) = (k, f v) ∷ map_values f m

module _ {ℓ κ μ} {K : Type ℓ} {V : Type κ} {W : Type μ} ⦃e : Eq K⦄ (f : V → W) where
  pub get-map_values : (k : K) (m : Map K V) → get k (map_values f m) ≡ Option.map f (get k m)
  unfolding get
  get-map_values k [] = refl
  get-map_values k ((j, v) ∷ m) = elim (Bool-cases (e.beq j k)) [
    | inl p ↦ rw p refl
    | inr p ↦ rw p (get-map_values k m)
  ]

  pub put-map_values :
      (k : K) (v : V) (m : Map K V) → put k (f v) (map_values f m) ≡ map_values f (put k v m)
  unfolding put
  put-map_values k v [] = refl
  put-map_values k v ((j, w) ∷ m) = elim (Bool-cases (e.beq j k)) [
    | inl p ↦ rw p refl
    | inr p ↦ rw p (ap (λ t. (j, f w) ∷ t) (put-map_values k v m))
  ]
