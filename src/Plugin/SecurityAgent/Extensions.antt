-- ===== src/Plugin/SecurityAgent/Extensions.antt =====
-- The scan of an attachment's name ends, and finds the last blocked segment.
use Prim.Native.Char
use Prim.Native.Char.{code}
use postbox.Common.{
  ℕ, zero, suc, ◌<◌, String, Bool, Option, none, some, List, [], ◌∷◌, ◌++◌, ◌≡◌, refl, nat_Eq,
  string_Eq, ◌==◌, if◌then◌else◌, arith, select, before_first, size, Bool-cases, inl, inr,
}
use postbox.Plugin.SecurityAgent.{split_last, member, blocked_loop, blocked_extension}

-- The segments of a name that begin with a dot, from left to right.
unfoldable pub dot_segments : String → List String
unfolding before_first
dot_segments String.[] = []
dot_segments (String.◌∷◌ c s) =
    let rest = dot_segments s in
    if code c == b'.' then String.◌∷◌ c (before_first b'.' s) ∷ rest else rest

abbrev pub last_or {ℓ} : {A : Type ℓ} → A → List A → A
last_or d [] = d
last_or d (x ∷ xs) = last_or x xs

-- What a split at the last dot leaves.
abbrev Splits : String → Option (String × String) → Type 0
Splits s none = (dot_segments s ≡ []) × (before_first b'.' s ≡ s)
Splits s (some (front, ext)) =
    (dot_segments s ≡ dot_segments front ++ ext ∷ [])
    × (before_first b'.' s ≡ before_first b'.' front)
    × (size front < size s)

-- One character more in front of a split.
Splits-cons :
    (c : Char.Char) (s : String) (o : Option (String × String))
    → Splits s o
    → Splits (String.◌∷◌ c s) (elim o [
      | some (front, ext) ↦ some (String.◌∷◌ c front, ext)
      | none ↦ if code c == b'.' then some ("", String.◌∷◌ c s) else none
    ])
unfolding dot_segments before_first size
Splits-cons c s none h = elim (Bool-cases (code c == b'.')) [
  | inl e ↦ rw e (ground arith)
  | inr e ↦ rw e (ground arith)
]
Splits-cons c s (some (front, ext)) h = ground arith

split_last-Splits : (s : String) → Splits s (split_last b'.' s)
unfolding split_last dot_segments before_first
split_last-Splits String.[] = (refl, refl)
split_last-Splits (String.◌∷◌ c s) = Splits-cons c s (split_last b'.' s) (split_last-Splits s)

-- The segment that the scan from the right comes to first.
abbrev pub last_blocked : List String → String → String
last_blocked blocked lower = last_or "" (select (λ ext. member ext blocked) (dot_segments lower))

last_or-append :
    (p : String → Bool) (d : String) (xs : List String) (y : String)
    → last_or d (select p (xs ++ y ∷ [])) ≡ (if p y then y else last_or d (select p xs))
last_or-append p d [] y = ground arith
last_or-append p d (x ∷ xs) y = elim (Bool-cases (p x)) [
  | inl e ↦ rw e (last_or-append p x xs y)
  | inr e ↦ rw e (last_or-append p d xs y)
]

-- Enough fuel for the rest of the name is enough for a round.
round :
    (fuel : ℕ) (blocked : List String) (lower : String) (o : Option (String × String))
    → Splits lower o
    → size lower < suc fuel
    → ((front : String)
        → size front < fuel
        → blocked_loop fuel blocked front ≡ some (last_blocked blocked front))
    → elim o [
      | none ↦ some ""
      | some (front, ext) ↦ if member ext blocked then some ext else blocked_loop fuel blocked front
    ]
      ≡ some (last_blocked blocked lower)
round fuel blocked lower none h k ih = rw h.0
round fuel blocked lower (some (front, ext)) h k ih =
    rw
      (
        h.0,
        ih front (omega (arith, h.2)),
        last_or-append (λ x. member x blocked) "" (dot_segments front) ext,
      )
      (ground arith)

blocked_loop_lem :
    (fuel : ℕ) (blocked : List String) (lower : String)
    → size lower < fuel
    → blocked_loop fuel blocked lower ≡ some (last_blocked blocked lower)
unfolding blocked_loop
blocked_loop_lem zero blocked lower h = absurd (omega arith)
blocked_loop_lem (suc fuel) blocked lower h =
    round fuel blocked lower (split_last b'.' lower) (split_last-Splits lower) h
      (λ front k. blocked_loop_lem fuel blocked front k)

-- The scan of a name ends, and its result is the last of the segments at a dot that is blocked, or
-- the empty text where none is: so no blocked segment hides behind a harmless one.
pub blocked_extension_lem :
    (blocked : List String) (lower : String)
    → blocked_extension blocked lower ≡ some (last_blocked blocked lower)
unfolding blocked_extension
blocked_extension_lem blocked lower =
    blocked_loop_lem (suc (size lower)) blocked lower (omega arith)
