-- ===== src/Common/Sort.antt =====
-- `sort.Slice`: an insertion sort by a Boolean order. Of the order in which it leaves elements that
-- are level nothing is used.
use Prim.Native.Nat.{ℕ, zero, suc}
use mathlib.Core.Path.{◌≡◌, refl, ap, ◌∙◌}
use mathlib.Core.Bool.{Bool, true, false}
use mathlib.Core.Logic.{inl, inr}
use mathlib.Core.List.{List, [], ◌∷◌, map}
use native.Mathlib.Omega.{arith}
use postbox.Common.Tests.{if◌then◌else◌, Bool-cases}
use postbox.Common.Lists.{All, count, take, All-take}

module _ {ℓ} {A : Type ℓ} (le : A → A → Bool) where
  unfoldable pub insert_by : A → List A → List A
  insert_by x [] = x ∷ []
  insert_by x (y ∷ ys) = if le x y then x ∷ y ∷ ys else y ∷ insert_by x ys

  unfoldable pub sort_by : List A → List A
  unfolding insert_by
  sort_by [] = []
  sort_by (x ∷ xs) = insert_by x (sort_by xs)

  abbrev pub Sorted : List A → Type 0
  Sorted [] = Unit
  Sorted (x ∷ xs) = All (λ y. le x y ≡ true) xs × Sorted xs

  -- Sorting keeps the elements: as many pass any test as before.
  count-insert_by :
      (p : A → Bool) (x : A) (xs : List A) → count p (insert_by x xs) ≡ count p (x ∷ xs)
  unfolding insert_by
  count-insert_by p x [] = refl
  count-insert_by p x (y ∷ ys) = ground (arith, count-insert_by p x ys)

  pub count-sort_by : (p : A → Bool) (xs : List A) → count p (sort_by xs) ≡ count p xs
  unfolding sort_by
  count-sort_by p [] = refl
  count-sort_by p (x ∷ xs) = omega (arith, count-insert_by p x (sort_by xs), count-sort_by p xs)

  All-insert_by {κ} :
      (P : A → Type κ) (x : A) (xs : List A) → P x → All P xs → All P (insert_by x xs)
  unfolding insert_by
  All-insert_by P x [] h k = (h, tt)
  All-insert_by P x (y ∷ ys) h k = elim (Bool-cases (le x y)) [
    | inl e ↦ rw e (h, k)
    | inr e ↦ rw e (k.0, All-insert_by P x ys h k.1)
  ]

  pub All-sort_by {κ} : (P : A → Type κ) (xs : List A) → All P xs → All P (sort_by xs)
  unfolding sort_by
  All-sort_by P [] h = tt
  All-sort_by P (x ∷ xs) h = All-insert_by P x (sort_by xs) h.0 (All-sort_by P xs h.1)

-- What an order needs for the result to be sorted.
pub record IsTotal {ℓ} {A : Type ℓ} (le : A → A → Bool) : Type ℓ where
  pub total : (a b : A) → le a b ≡ false → le b a ≡ true
  pub trans : (a b c : A) → le a b ≡ true → le b c ≡ true → le a c ≡ true

module _ {ℓ} {A : Type ℓ} (le : A → A → Bool) (t : IsTotal le) where
  below :
      (x y : A) (ys : List A)
      → le x y ≡ true
      → All (λ z. le y z ≡ true) ys
      → All (λ z. le x z ≡ true) ys
  below x y [] e h = tt
  below x y (z ∷ zs) e h = (t.trans x y z e h.0, below x y zs e h.1)

  Sorted-insert_by : (x : A) (xs : List A) → Sorted le xs → Sorted le (insert_by le x xs)
  unfolding insert_by
  Sorted-insert_by x [] h = (tt, tt)
  Sorted-insert_by x (y ∷ ys) h = elim (Bool-cases (le x y)) [
    | inl e ↦ rw e ((e, below x y ys e h.0), h)
    | inr e ↦
        rw e (
          All-insert_by le (λ z. le y z ≡ true) x ys (t.total x y e) h.0,
          Sorted-insert_by x ys h.1,
        )
  ]

  pub Sorted-sort_by : (xs : List A) → Sorted le (sort_by le xs)
  unfolding sort_by
  Sorted-sort_by [] = tt
  Sorted-sort_by (x ∷ xs) = Sorted-insert_by x (sort_by le xs) (Sorted-sort_by xs)

module _ {ℓ} {A : Type ℓ} (le : A → A → Bool) where
  pub Sorted-take : (n : ℕ) (xs : List A) → Sorted le xs → Sorted le (take n xs)
  Sorted-take zero xs h = tt
  Sorted-take (suc n) [] h = tt
  Sorted-take (suc n) (x ∷ xs) h = (All-take (λ z. le x z ≡ true) n xs h.0, Sorted-take n xs h.1)

-- A map that keeps the order goes through a sort.
module _ {ℓ κ} {A : Type ℓ} {B : Type κ} (f : A → B) (le : A → A → Bool) (le' : B → B → Bool) where
  insert_by-map :
      (e : (a b : A) → le' (f a) (f b) ≡ le a b) (x : A) (xs : List A)
      → insert_by le' (f x) (map f xs) ≡ map f (insert_by le x xs)
  unfolding insert_by
  insert_by-map e x [] = refl
  insert_by-map e x (y ∷ ys) = elim (Bool-cases (le x y)) [
    | inl h ↦ rw (e x y, h) refl
    | inr h ↦ rw (e x y, h) (ap (λ zs. f y ∷ zs) (insert_by-map e x ys))
  ]

  pub sort_by-map :
      (e : (a b : A) → le' (f a) (f b) ≡ le a b) (xs : List A)
      → sort_by le' (map f xs) ≡ map f (sort_by le xs)
  unfolding sort_by
  sort_by-map e [] = refl
  sort_by-map e (x ∷ xs) =
      ap (insert_by le' (f x)) (sort_by-map e xs) ∙ insert_by-map e x (sort_by le xs)
