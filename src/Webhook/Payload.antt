-- ===== src/Webhook/Payload.antt =====
-- internal/webhook/payload.go: the body that is posted for a message. A message is what the mailbox
-- library's getters return.
use postbox.Common.{ℕ, String, ◌≡◌, refl, Option, none, some, [], ◌∷◌, string_Eq, arith, eq_iff}
use postbox.Common.Map.{Map, get, put, get-put, UniqueKeys}

-- A dynamic value of a message's metadata: a text, or a value of another type.
pub data Value : Type 0 where
  text : String → Value
  other : Value

pub record Message : Type 0 where
  pub id : String
  pub thread_id : String
  pub reply_to_id : String
  pub external_id : String
  pub sender_id : String
  pub subject : String
  pub body : String
  pub metadata : Map String Value

-- `metadata` `none` is the nil map, which the JSON leaves out.
pub record Payload : Type 0 where
  pub event_type : String
  pub message_id : String
  pub thread_id : String
  pub reply_to_id : String
  pub external_id : String
  pub sender_id : String
  pub recipient_id : String
  pub subject : String
  pub body : String
  pub received_at : ℕ
  pub metadata : Option (Map String String)

-- The texts of the metadata, copied key by key.
unfoldable pub copy_texts : Map String Value → Map String String → Map String String
copy_texts [] meta = meta
copy_texts ((k, v) ∷ raw) meta = copy_texts raw (elim v [ text s ↦ put k s meta | other ↦ meta ])

abbrev pub string_metadata : Map String Value → Option (Map String String)
string_metadata [] = none
string_metadata (e ∷ raw) = some (copy_texts (e ∷ raw) [])

unfoldable pub build_payload : String → Message → ℕ → Payload
build_payload recipient_id msg received_at = record {
  event_type = "message.received";
  message_id = msg.id;
  thread_id = msg.thread_id;
  reply_to_id = msg.reply_to_id;
  external_id = msg.external_id;
  sender_id = msg.sender_id;
  recipient_id = recipient_id;
  subject = msg.subject;
  body = msg.body;
  received_at = received_at;
  metadata = string_metadata msg.metadata;
}

-- The text of a value of the metadata.
abbrev pub text_of : Option Value → Option String
text_of none = none
text_of (some (text s)) = some s
text_of (some other) = none

abbrev pub or_else : Option String → Option String → Option String
or_else none o = o
or_else (some s) o = some s

get-copy_texts :
    (k : String) (raw : Map String Value) (meta : Map String String)
    → UniqueKeys raw
    → get k (copy_texts raw meta) ≡ or_else (text_of (get k raw)) (get k meta)
unfolding get copy_texts
get-copy_texts k [] meta u = ground arith
get-copy_texts k ((j, text s) ∷ raw) meta u =
    ground (arith, get-copy_texts k raw (put j s meta) u.1, get-put j k s meta, eq_iff j k, u.0)
get-copy_texts k ((j, other) ∷ raw) meta u =
    ground (arith, get-copy_texts k raw meta u.1, eq_iff j k, u.0)

abbrev pub payload_metadata : Payload → String → Option String
payload_metadata p k = elim p.metadata [ none ↦ none | some m ↦ get k m ]

texts_of_metadata :
    (k : String) (raw : Map String Value)
    → UniqueKeys raw
    → elim (string_metadata raw) [ none ↦ none | some m ↦ get k m ] ≡ text_of (get k raw)
unfolding get
texts_of_metadata k [] u = refl
texts_of_metadata k (e ∷ raw) u = rw (get-copy_texts k (e ∷ raw) [] u) (ground arith)

-- For a message whose metadata is a map (no key twice), the payload carries exactly those entries
-- of the metadata whose value is a text.
pub metadata-build_payload :
    (recipient_id : String) (msg : Message) (received_at : ℕ) (k : String)
    → UniqueKeys msg.metadata
    → payload_metadata (build_payload recipient_id msg received_at) k ≡ text_of (get k msg.metadata)
unfolding build_payload
metadata-build_payload recipient_id msg received_at k u = texts_of_metadata k msg.metadata u
