-- ===== src/Guard/Tokens.antt =====
-- Which values the guard takes.
use Prim.Native.Char
use Prim.Native.String.{◌++◌ as str_append}
use text.Mathlib.TextLemmas.{nil-append, cons-append, append_cancel_left}
use text.Mathlib.TextEquality.{Char-path}
use postbox.Common.{
  String, Bool, true, false, ◌||◌, Option, none, some, List, ◌∷◌, ◌≡◌, ap, ◌∙◌, sym, string_Eq,
  ◌==◌, [], refl, nat_eq, Result, ok, err, trim_prefix, cut_prefix, arith, eq_iff, Bool-cases,
  Option-cases, inl, inr,
}
use postbox.Guard.{AuthError, authenticate}

cut_prefix-append : (p s : String) → cut_prefix (str_append p s) p ≡ some s
unfolding cut_prefix
cut_prefix-append String.[] s = ap some (nil-append s)
cut_prefix-append (String.◌∷◌ c p) s =
    rw (cons-append c p s) (ground (arith, cut_prefix-append p s))

some-injective : (a b : String) → some a ≡ some b → a ≡ b
some-injective a b h = cc

none≢some : {s : String} → ◌≡◌ {A = Option String} none (some s) → ⊥
none≢some h = cc

-- What is cut off stands in front.
cut_prefix-some : (s p rest : String) → cut_prefix s p ≡ some rest → s ≡ str_append p rest
unfolding cut_prefix
cut_prefix-some s String.[] rest h = some-injective s rest h ∙ sym (nil-append rest)
cut_prefix-some String.[] (String.◌∷◌ d p) rest h = cc
cut_prefix-some (String.◌∷◌ c s) (String.◌∷◌ d p) rest h =
    elim (Bool-cases (nat_eq (Char.code c) (Char.code d))) [
      | inl e ↦
          let same : c ≡ d = Char-path c d (ground arith) in
          let tail : s ≡ str_append p rest = cut_prefix-some s p rest (rw e at h) in
          rw (same, tail) (sym (cons-append d p rest))
      | inr e ↦ cc (rw e at h)
    ]

trim_prefix-cut_prefix :
    (s p : String) (o : Option String)
    → cut_prefix s p ≡ o
    → trim_prefix s p ≡ elim o [ none ↦ s | some rest ↦ rest ]
unfolding trim_prefix
trim_prefix-cut_prefix s p none e = ground (arith, e)
trim_prefix-cut_prefix s p (some rest) e = ground (arith, e)

abbrev pub accepts : Result AuthError (Unit {0}) → Bool
accepts (ok u) = true
accepts (err e) = false

-- The first value of the key in the metadata of a call, none where there is no such value.
abbrev pub presented : Option (List String) → Option String
presented none = none
presented (some []) = none
presented (some (v ∷ vs)) = some v

accepts-first :
    (token v : String) (vs : List String)
    → cut_prefix token "Bearer " ≡ none
    → accepts (authenticate token (some (v ∷ vs))) ≡ (v == token || v == str_append "Bearer " token)
unfolding authenticate
accepts-first token v vs h = elim (Option-cases (cut_prefix v "Bearer ")) [
  | inl e ↦ bare e
  | inr (rest, e) ↦ prefixed rest e
]
  where
    bare :
        cut_prefix v "Bearer " ≡ none
        → accepts (authenticate token (some (v ∷ vs)))
          ≡ (v == token || v == str_append "Bearer " token)
    bare e = elim (Bool-cases (v == str_append "Bearer " token)) [
      | inl q ↦ absurd (
          none≢some (
            sym e
            ∙ ap (λ (t : String). cut_prefix t "Bearer ")
                ((eq_iff v (str_append "Bearer " token)).0 q)
            ∙ cut_prefix-append "Bearer " token))
      | inr q ↦ rw (trim_prefix-cut_prefix v "Bearer " none e) (rw q (ground arith))
    ]

    prefixed :
        (rest : String)
        → cut_prefix v "Bearer " ≡ some rest
        → accepts (authenticate token (some (v ∷ vs)))
          ≡ (v == token || v == str_append "Bearer " token)
    prefixed rest e = rw (trim_prefix-cut_prefix v "Bearer " (some rest) e) (
        ground (
          arith,
          eq_iff rest token,
          eq_iff v token,
          eq_iff v (str_append "Bearer " token),
          cut_prefix-some v "Bearer " rest e,
          append_cancel_left "Bearer " rest token,
          h,
          e,
        ))

-- Where the token does not itself begin with the prefix: a call is let in exactly when its metadata
-- has a value for the key, and the first one is the token, with the prefix or without it. A call
-- without metadata, or with no value for the key, is refused.
pub accepts-authenticate :
    (token : String) (values : Option (List String))
    → cut_prefix token "Bearer " ≡ none
    → accepts (authenticate token values) ≡ elim (presented values) [
      | none ↦ false
      | some v ↦ v == token || v == str_append "Bearer " token
    ]
unfolding authenticate
accepts-authenticate token none h = refl
accepts-authenticate token (some []) h = refl
accepts-authenticate token (some (v ∷ vs)) h = accepts-first token v vs h
