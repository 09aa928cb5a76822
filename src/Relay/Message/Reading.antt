-- ===== src/Relay/Message/Reading.antt =====
-- Reading a message back into the lines of its header and its body.
use Prim.Native.Char
use text.Mathlib.TextLemmas.{nil-append, cons-append}
use postbox.Common.{
  ℕ, zero, suc, String, Bool, true, false, ◌&&◌, not, Option, none, some, List, [], ◌∷◌, ◌≡◌, refl,
  ap, ◌∙◌, nat_Eq, string_Eq, ◌==◌, if◌then◌else◌, arith, sym,
}
use postbox.Common.Map.{Map}
use postbox.Relay.Message.{◌<>◌, line_end}

-- What stands after a carriage return, where that is a line feed.
abbrev pub after_cr : String → Option (String × String)
after_cr String.[] = none
after_cr (String.◌∷◌ c s) = if Char.code c == 10 then some ("", s) else none

abbrev pub onto_line : Char.Char → Option (String × String) → Option (String × String)
onto_line c none = none
onto_line c (some (l, rest)) = some (String.◌∷◌ c l, rest)

-- The first line, and what follows its end.
unfoldable pub first_line : String → Option (String × String)
first_line String.[] = none
first_line (String.◌∷◌ c s) =
    let next = onto_line c (first_line s) in if Char.code c == 13 then after_cr s else next

abbrev pub onto_lines : String → Option (List String × String) → Option (List String × String)
onto_lines l none = none
onto_lines l (some (ls, body)) = some (l ∷ ls, body)

abbrev pub read_rest :
    (String → Option (List String × String))
    → Option (String × String)
    → Option (List String × String)
read_rest next none = none
read_rest next (some (String.[], rest)) = some ([], rest)
read_rest next (some (String.◌∷◌ c l, rest)) = onto_lines (String.◌∷◌ c l) (next rest)

-- The lines before the first empty one, and what follows that: at most as many lines as the number.
unfoldable pub read_message : ℕ → String → Option (List String × String)
read_message zero s = none
read_message (suc n) s = read_rest (read_message n) (first_line s)

-- A text with no carriage return.
unfoldable pub is_one_line : String → Bool
is_one_line String.[] = true
is_one_line (String.◌∷◌ c s) = not (Char.code c == 13) && is_one_line s

unfoldable pub is_empty : String → Bool
is_empty String.[] = true
is_empty (String.◌∷◌ c s) = false

pub is_one_line-append : (s t : String) → is_one_line (s <> t) ≡ (is_one_line s && is_one_line t)
unfolding is_one_line
is_one_line-append String.[] t = rw (nil-append t) refl
is_one_line-append (String.◌∷◌ c s) t =
    rw (cons-append c s t) (ground (arith, is_one_line-append s t))

is_empty-append : (s t : String) → is_empty (s <> t) ≡ (is_empty s && is_empty t)
unfolding is_empty
is_empty-append String.[] t = rw (nil-append t) refl
is_empty-append (String.◌∷◌ c s) t = rw (cons-append c s t) refl

first_line-append :
    (l rest : String) → is_one_line l ≡ true → first_line (l <> line_end <> rest) ≡ some (l, rest)
unfolding first_line is_one_line
first_line-append String.[] rest h =
    rw (nil-append (line_end <> rest), cons-append, cons-append, nil-append) refl
first_line-append (String.◌∷◌ c l) rest h =
    rw (cons-append c l (line_end <> rest)) (ground (arith, first_line-append l rest))

-- Fit for a line of the header.
abbrev pub is_line : String → Bool
is_line l = is_one_line l && not (is_empty l)

read_rest-line :
    (l rest : String) (next : String → Option (List String × String))
    → is_empty l ≡ false
    → read_rest next (some (l, rest)) ≡ onto_lines l (next rest)
unfolding is_empty
read_rest-line String.[] rest next h = cc
read_rest-line (String.◌∷◌ c l) rest next h = refl

pub read_message-line :
    (n : ℕ) (l rest : String)
    → is_line l ≡ true
    → read_message (suc n) (l <> line_end <> rest) ≡ onto_lines l (read_message n rest)
unfolding read_message
read_message-line n l rest h =
    ap (read_rest (read_message n)) (first_line-append l rest (ground arith))
    ∙ read_rest-line l rest (read_message n) (ground arith)

pub read_message-empty :
    (n : ℕ) (body : String) → read_message (suc n) (line_end <> body) ≡ some ([], body)
unfolding read_message is_one_line
read_message-empty n body =
    rw (sym (nil-append (line_end <> body)))
      (ap (read_rest (read_message n)) (first_line-append "" body refl))

abbrev pub one_line_entry : String × String → Bool
one_line_entry (k, v) = is_one_line k && is_one_line v

-- The lines of the extra headers but the content type.
unfoldable pub extra_lines : (String → String → Bool) → Map String String → List String
extra_lines fold [] = []
extra_lines fold ((k, v) ∷ rest) =
    let ls = extra_lines fold rest in if fold k "content-type" then ls else (k <> ": " <> v) ∷ ls

-- The last content type among the headers.
unfoldable pub content_type : (String → String → Bool) → Map String String → String → String
content_type fold [] ct = ct
content_type fold ((k, v) ∷ rest) ct =
    content_type fold rest (if fold k "content-type" then v else ct)

pub is_line-append :
    (label t : String) → is_line label ≡ true → is_one_line t ≡ true → is_line (label <> t) ≡ true
is_line-append label t h k = ground (arith, is_one_line-append label t, is_empty-append label t)

pub is_line-entry :
    (k v : String) → is_one_line k ≡ true → is_one_line v ≡ true → is_line (k <> ": " <> v) ≡ true
unfolding is_one_line is_empty
is_line-entry k v h h' = ground (
  arith,
  is_one_line-append k (": " <> v),
  is_one_line-append ": " v,
  is_empty-append k (": " <> v),
  is_empty-append ": " v,
)
