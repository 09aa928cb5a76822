-- ===== src/Relay/Message/Injected.antt =====
-- What a line break in a subject does.
use text.Mathlib.TextLemmas.{append_assoc}
use postbox.Common.{String, Bool, false, List, ◌∷◌, ◌≡◌, refl}
use postbox.Common.Map.{Map}
use postbox.Relay.Message.{◌<>◌, line_end, write_headers, build_rfc5322}

-- The texts of a header are written as they are: a subject that goes on after a line break with a header of
-- any name but that of the content type gives the same message, byte by byte, as the subject without it
-- and the header passed on its own.
pub build_rfc5322-injected :
    (fold : String → String → Bool) (sender : String) (to : List String) (subject k v body : String)
    (headers : Map String String)
    → fold k "content-type" ≡ false
    → build_rfc5322 fold sender to (subject <> line_end <> k <> ": " <> v) body headers
      ≡ build_rfc5322 fold sender to subject body ((k, v) ∷ headers)
unfolding build_rfc5322 write_headers
build_rfc5322-injected fold sender to subject k v body headers h = rw h (simp (append_assoc) refl)
