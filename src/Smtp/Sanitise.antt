-- ===== src/Smtp/Sanitise.antt =====
-- What `sanitiseMessageID` lets through: no line break or space, and no more than its bound.
use Prim.Native.Char
use postbox.Common.{
  size, ℕ, zero, suc, ◌≤◌, ◌≡◌, refl, String, Bool, true, ◌&&◌, leb, arith, Bool-cases, inl, inr,
  ap,
}
use postbox.Smtp.{printable, cut, sanitise_message_id}

-- Every character is printable ASCII and no space.
unfoldable pub is_printable : String → Bool
is_printable String.[] = true
is_printable (String.◌∷◌ c s) = leb 0x21 (Char.code c) && leb (Char.code c) 0x7e && is_printable s

printable_lem : (s : String) → is_printable (printable s) ≡ true
unfolding printable is_printable
printable_lem String.[] = refl
printable_lem (String.◌∷◌ c s) =
    let ih = printable_lem s in
    elim (Bool-cases (leb 0x21 (Char.code c) && leb (Char.code c) 0x7e)) [
      | inl e ↦ rw e (ground arith)
      | inr e ↦ rw e ih
    ]

is_printable-cut : (n : ℕ) (s : String) → is_printable s ≡ true → is_printable (cut n s) ≡ true
unfolding cut is_printable
is_printable-cut zero s h = refl
is_printable-cut (suc n) String.[] h = refl
is_printable-cut (suc n) (String.◌∷◌ c s) h = let ih = is_printable-cut n s in ground arith

size-cut : (n : ℕ) (s : String) → size (cut n s) ≤ n
unfolding cut size
size-cut zero s = omega arith
size-cut (suc n) String.[] = omega arith
size-cut (suc n) (String.◌∷◌ c s) = let ih = size-cut n s in omega arith

printable-id : (s : String) → is_printable s ≡ true → printable s ≡ s
unfolding printable is_printable
printable-id String.[] h = refl
printable-id (String.◌∷◌ c s) h =
    let ih = printable-id s in
    elim (Bool-cases (leb 0x21 (Char.code c) && leb (Char.code c) 0x7e)) [
      | inl e ↦ rw e (ap (String.◌∷◌ c) (ih (ground arith)))
      | inr e ↦ absurd (ground arith)
    ]

cut-id : (n : ℕ) (s : String) → size s ≤ n → cut n s ≡ s
unfolding cut size
cut-id zero String.[] h = refl
cut-id zero (String.◌∷◌ c s) h = absurd (omega arith)
cut-id (suc n) String.[] h = refl
cut-id (suc n) (String.◌∷◌ c s) h = ap (String.◌∷◌ c) (cut-id n s (omega arith))

-- The sanitised identifier has printable ASCII characters only, no space or line break among them,
-- and at most `n` of them; a text that is so already is left as it is.
pub sanitise_message_id_lem :
    (s : String) (n : ℕ)
    → (is_printable (sanitise_message_id s n) ≡ true)
      × (size (sanitise_message_id s n) ≤ n)
      × (is_printable s ≡ true → size s ≤ n → sanitise_message_id s n ≡ s)
unfolding sanitise_message_id
sanitise_message_id_lem s n = (
  is_printable-cut n (printable s) (printable_lem s),
  size-cut n (printable s),
  λ h k. rw (printable-id s h) (cut-id n s k),
)
