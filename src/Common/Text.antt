-- ===== src/Common/Text.antt =====
-- The functions of Go's package strings that the program uses, over native texts.
use Prim.Native.Nat.{ℕ, suc}
use Prim.Native.Char.{Char, code}
use Prim.Native.String.{String}
use mathlib.Core.Bool.{Bool, true, false, ◌&&◌, ◌||◌}
use mathlib.Core.Option.{Option, none, some}
use mathlib.Core.List.{List, [], ◌∷◌}
use mathlib.Core.Logic.{inl, inr}
use text.Mathlib.TextLemmas.{cons≢nil}
use text.Mathlib.TextEquality.{eq_iff}
use postbox.Common.Tests.{Bool-cases, string_Eq, ◌==◌, nat_eq, ltb, if◌then◌else◌}
use mathlib.Core.Path.{◌≡◌, refl}
use native.Mathlib.Omega.{arith}

-- `strings.HasPrefix s p`.
unfoldable pub has_prefix : String → String → Bool
has_prefix s String.[] = true
has_prefix String.[] (String.◌∷◌ d p) = false
has_prefix (String.◌∷◌ c s) (String.◌∷◌ d p) = nat_eq (code c) (code d) && has_prefix s p

-- `strings.Contains s sub`.
unfoldable pub contains : String → String → Bool
unfolding has_prefix
contains String.[] sub = has_prefix "" sub
contains (String.◌∷◌ c s) sub = has_prefix (String.◌∷◌ c s) sub || contains s sub

-- What follows the prefix `p` of `s`.
unfoldable pub cut_prefix : String → String → Option String
cut_prefix s String.[] = some s
cut_prefix String.[] (String.◌∷◌ d p) = none
cut_prefix (String.◌∷◌ c s) (String.◌∷◌ d p) =
    if nat_eq (code c) (code d) then cut_prefix s p else none

-- `strings.TrimPrefix s p`.
unfoldable pub trim_prefix : String → String → String
unfolding cut_prefix
trim_prefix s p = elim (cut_prefix s p) [ none ↦ s | some rest ↦ rest ]

-- What follows the first character with the given code: `s[strings.Index(s, c)+1:]`, and `none`
-- where `strings.Index` is negative.
unfoldable pub after_first : ℕ → String → Option String
after_first x String.[] = none
after_first x (String.◌∷◌ c s) = if nat_eq (code c) x then some s else after_first x s

-- The zero value of a missing text.
abbrev pub get_or_empty : Option String → String
get_or_empty none = ""
get_or_empty (some s) = s

-- `a <= b` on strings. The order of UTF-8 bytes is that of the code points.
unfoldable pub string_le : String → String → Bool
string_le String.[] b = true
string_le (String.◌∷◌ c a) String.[] = false
string_le (String.◌∷◌ c a) (String.◌∷◌ d b) =
    ltb (code c) (code d) || (nat_eq (code c) (code d) && string_le a b)

pub string_le-total : (a b : String) → string_le a b ≡ false → string_le b a ≡ true
unfolding string_le
string_le-total String.[] b h = cc
string_le-total (String.◌∷◌ c a) String.[] h = refl
string_le-total (String.◌∷◌ c a) (String.◌∷◌ d b) h = ground (arith, string_le-total a b)

pub string_le_trans :
    (a b c : String) → string_le a b ≡ true → string_le b c ≡ true → string_le a c ≡ true
unfolding string_le
string_le_trans String.[] b c h k = refl
string_le_trans (String.◌∷◌ x a) String.[] c h k = cc
string_le_trans (String.◌∷◌ x a) (String.◌∷◌ y b) String.[] h k = cc
string_le_trans (String.◌∷◌ x a) (String.◌∷◌ y b) (String.◌∷◌ z c) h k =
    ground (arith, string_le_trans a b c)

-- What stands before the first character with the given code; all of the text where there is none.
unfoldable pub before_first : ℕ → String → String
before_first x String.[] = ""
before_first x (String.◌∷◌ c s) = if nat_eq (code c) x then "" else String.◌∷◌ c (before_first x s)

-- What follows the last character with the given code: `s[strings.LastIndex(s, c)+1:]`, and `none`
-- where `strings.LastIndex` is negative.
unfoldable pub after_last : ℕ → String → Option String
after_last x String.[] = none
after_last x (String.◌∷◌ c s) = elim (after_last x s) [
  | some rest ↦ some rest
  | none ↦ if nat_eq (code c) x then some s else none
]

-- The number of characters.
unfoldable pub size : String → ℕ
size String.[] = 0
size (String.◌∷◌ c s) = suc (size s)

abbrev onto_first : Char → List String → List String
onto_first c [] = String.◌∷◌ c "" ∷ []
onto_first c (t ∷ ts) = String.◌∷◌ c t ∷ ts

-- `strings.Split s x` at a character with the given code: one part more than there are such
-- characters.
unfoldable pub split : ℕ → String → List String
split x String.[] = "" ∷ []
split x (String.◌∷◌ c s) =
    let rest = split x s in if nat_eq (code c) x then "" ∷ rest else onto_first c rest

-- A text with a character is not empty.
pub cons_full : (c : Char) (s : String) → (String.◌∷◌ c s == "") ≡ false
cons_full c s = elim (Bool-cases (String.◌∷◌ c s == "")) [
  | inl e ↦ absurd (cons≢nil ((eq_iff (String.◌∷◌ c s) "").0 e))
  | inr e ↦ e
]
