-- ===== src/Smtp/Request/Text.antt =====
-- What the texts of a request can hold.
use Prim.Native.Char
use postbox.Common.{
  ℕ, ◌≤◌, ◌≡◌, String, Bool, true, ◌&&◌, ◌||◌, not, nat_Eq, ◌==◌, leb, All, All-append, All-take,
  length, length-take-le, arith, Bool-cases, inl, inr,
}
use postbox.Smtp.Request.{encode, visible, sanitise_header_value}

-- The byte is a tab or not that of a control character.
abbrev pub is_visible : ℕ → Bool
is_visible b = b == 9 || (leb 0x20 b && not (b == 0x7f))

encode-is_visible : (c : ℕ) → is_visible c ≡ true → All (λ b. is_visible b ≡ true) (encode c)
encode-is_visible c h = ground arith

visible-is_visible : (s : String) → All (λ b. is_visible b ≡ true) (visible s)
unfolding visible
visible-is_visible String.[] = tt
visible-is_visible (String.◌∷◌ c s) = elim (Bool-cases (is_visible (Char.code c))) [
  | inl e ↦ rw e (
      All-append (λ b. is_visible b ≡ true) (encode (Char.code c)) (visible s)
        (encode-is_visible (Char.code c) e) (visible-is_visible s))
  | inr e ↦ rw e (visible-is_visible s)
]

-- A sanitised header value has no byte of a control character but tabs, so no line break, and at
-- most as many bytes as its bound.
pub sanitise_header_value_lem :
    (s : String) (n : ℕ)
    → All (λ b. is_visible b ≡ true) (sanitise_header_value s n)
      × (length (sanitise_header_value s n) ≤ n)
unfolding sanitise_header_value
sanitise_header_value_lem s n = (
  All-take (λ b. is_visible b ≡ true) n (visible s) (visible-is_visible s),
  length-take-le n (visible s),
)
