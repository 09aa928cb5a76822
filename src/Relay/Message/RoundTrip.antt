-- ===== src/Relay/Message/RoundTrip.antt =====
-- The message that goes out, read back.
use text.Mathlib.TextLemmas.{nil-append, append_assoc}
use postbox.Common.{
  ℕ, zero, suc, ◌+◌, ◌≤◌, String, Bool, true, some, List, [], ◌∷◌, ◌++◌, ◌≡◌, refl, ap, ◌∙◌, nat_Eq,
  string_Eq, length, all, arith, sym, Bool-cases, inl, inr,
}
use postbox.Common.Map.{Map}
use postbox.Relay.Message.{◌<>◌, line_end, join, written, write_headers, tail_of, build_rfc5322}
use postbox.Relay.Message.Reading.{
  is_one_line, is_empty, is_line, one_line_entry, onto_lines, read_message, read_message-line,
  read_message-empty, extra_lines, content_type, is_line-append, is_line-entry, is_one_line-append,
}

read_message-field :
    (n : ℕ) (label t rest : String)
    → is_line label ≡ true
    → is_one_line t ≡ true
    → read_message (suc n) (label <> t <> line_end <> rest)
      ≡ onto_lines (label <> t) (read_message n rest)
read_message-field n label t rest h k =
    ap (read_message (suc n)) (sym (append_assoc label t (line_end <> rest)))
    ∙ read_message-line n (label <> t) rest (is_line-append label t h k)

is_one_line-join : (to : List String) → all is_one_line to ≡ true → is_one_line (join to) ≡ true
unfolding join is_one_line
is_one_line-join [] h = refl
is_one_line-join (a ∷ []) h = ground arith
is_one_line-join (a ∷ b ∷ rest) h = ground (
  arith,
  is_one_line-append a (", " <> join (b ∷ rest)),
  is_one_line-append ", " (join (b ∷ rest)),
  is_one_line-join (b ∷ rest),
)

-- The lines from the extra headers on.
abbrev pub last_lines : (String → String → Bool) → Map String String → String → List String
last_lines fold hs ct = extra_lines fold hs ++ ("Content-Type: " <> content_type fold hs ct) ∷ []

module _ (fold : String → String → Bool) (body : String) where
  read_message-none :
      (n : ℕ) (ct : String)
      → is_one_line ct ≡ true
      → 2 ≤ n
      → read_message n (tail_of body ("", ct)) ≡ some (("Content-Type: " <> ct) ∷ [], body)
  unfolding is_one_line is_empty
  read_message-none zero ct h k = absurd (omega arith)
  read_message-none (suc zero) ct h k = absurd (omega arith)
  read_message-none (suc (suc n)) ct h k =
      ap (read_message (suc (suc n)))
        (nil-append ("Content-Type: " <> ct <> line_end <> line_end <> body))
      ∙ read_message-field (suc n) "Content-Type: " ct (line_end <> body) refl h
      ∙ ap (onto_lines ("Content-Type: " <> ct)) (read_message-empty n body)

  read_message-written :
      (n : ℕ) (k v : String) (p : String × String)
      → is_one_line k ≡ true
      → is_one_line v ≡ true
      → read_message (suc n) (tail_of body (written k v p))
        ≡ onto_lines (k <> ": " <> v) (read_message n (tail_of body p))
  read_message-written n k v (text, ct) h h' =
      let rest = tail_of body (text, ct) in
      let regroup : (k <> ": " <> v <> line_end <> text)
            <> "Content-Type: "
            <> ct
            <> line_end
            <> line_end
            <> body
          ≡ (k <> ": " <> v) <> line_end <> rest =
        simp (append_assoc) refl in
      ap (read_message (suc n)) regroup
      ∙ read_message-line n (k <> ": " <> v) rest (is_line-entry k v h h')

  read_message-tail :
      (n : ℕ) (hs : Map String String) (ct : String)
      → all one_line_entry hs ≡ true
      → is_one_line ct ≡ true
      → length hs + 2 ≤ n
      → read_message n (tail_of body (write_headers fold hs ct))
        ≡ some (last_lines fold hs ct, body)
  unfolding write_headers extra_lines content_type
  read_message-tail n [] ct h h' le = read_message-none n ct h' (omega arith)
  read_message-tail zero ((k, v) ∷ rest) ct h h' le = absurd (omega arith)
  read_message-tail (suc n) ((k, v) ∷ rest) ct h h' le = elim (Bool-cases (fold k "content-type")) [
    | inl e ↦ rw e (read_message-tail (suc n) rest v (ground arith) (ground arith) (omega arith))
    | inr e ↦ rw e (
        read_message-written n k v (write_headers fold rest ct) (ground arith) (ground arith)
        ∙ ap (onto_lines (k <> ": " <> v))
            (read_message-tail n rest ct (ground arith) h' (omega arith)))
  ]

-- Where no text of the header holds a carriage return: the message that is built reads back as its lines,
-- with every extra header but content types in its order and the last content type, or the default, at
-- the end, and as its body, whatever that holds.
pub read_message-build_rfc5322 :
    (fold : String → String → Bool) (sender : String) (to : List String) (subject body : String)
    (headers : Map String String)
    → is_one_line sender ≡ true
    → all is_one_line to ≡ true
    → is_one_line subject ≡ true
    → all one_line_entry headers ≡ true
    → read_message (length headers + 6) (build_rfc5322 fold sender to subject body headers)
      ≡ some (
        "MIME-Version: 1.0"
            ∷ ("From: " <> sender)
            ∷ ("To: " <> join to)
            ∷ ("Subject: " <> subject)
            ∷ last_lines fold headers "text/plain; charset=utf-8",
        body,
      )
unfolding build_rfc5322 is_one_line is_empty
read_message-build_rfc5322 fold sender to subject body headers from_ok to_ok subject_ok headers_ok =
    let n = length headers in
    let tail = tail_of body (write_headers fold headers "text/plain; charset=utf-8") in
    let subject_line = "Subject: " <> subject <> line_end <> tail in
    let to_line = "To: " <> join to <> line_end <> subject_line in
    let from_line = "From: " <> sender <> line_end <> to_line in
    let fuel : n + 6 ≡ suc (suc (suc (suc (n + 2)))) = omega arith in
    rw fuel (
      read_message-line (suc (suc (suc (n + 2)))) "MIME-Version: 1.0" from_line refl
      ∙ ap (onto_lines "MIME-Version: 1.0") (
          read_message-field (suc (suc (n + 2))) "From: " sender to_line refl from_ok
          ∙ ap (onto_lines ("From: " <> sender)) (
              read_message-field (suc (n + 2)) "To: " (join to) subject_line refl
                (is_one_line-join to to_ok)
              ∙ ap (onto_lines ("To: " <> join to)) (
                  read_message-field (n + 2) "Subject: " subject tail refl subject_ok
                  ∙ ap (onto_lines ("Subject: " <> subject)) (
                      read_message-tail fold body (n + 2) headers "text/plain; charset=utf-8"
                        headers_ok refl (omega arith))))))
