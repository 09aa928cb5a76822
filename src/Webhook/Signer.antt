-- ===== src/Webhook/Signer.antt =====
-- internal/webhook/signer.go. Ed25519 and base64 are parameters; what is assumed of them is that a
-- signature verifies under the public key of its private key, and that decoding undoes encoding.
-- Texts stand for byte slices too. Times are seconds, ages in the unit of `max_age`.
use postbox.Common.{
  ℕ, ◌-◌, ◌≤◌, ◌≡◌, refl, String, Bool, true, Option, none, some, [], ◌∷◌, nat_Eq, string_Eq, ◌==◌,
  ltb, leb, if◌then◌else◌, Result, ok, err, arith,
}
use postbox.Common.Map.{Map, get}
use Prim.Native.String.{len}

-- `crypto/ed25519`, `encoding/base64` and `strconv.FormatInt`.
pub record Crypto : Type 0 where
  pub sign : String → String → String
  pub verify : String → String → String → Bool
  pub encode : String → String
  pub decode : String → Option String
  pub format_int : ℕ → String

-- A key pair of the algorithm: what `private` signs, `public` verifies.
pub record IsKeyPair (c : Crypto) (private public : String) : Type 0 where
  pub verifies : (body : String) → c.verify public body (c.sign private body) ≡ true
  pub decodes : (text : String) → c.decode (c.encode text) ≡ some text

pub record Signer : Type 0 where
  pub priv_key : String
  pub key_id : String

pub data VerifyError : Type 0 where
  too_old bad_encoding invalid_signature : VerifyError

abbrev pub private_key_size : ℕ
private_key_size = 64

-- `NewSigner`; the error is the length of the key.
unfoldable pub new_signer : String → String → Result ℕ Signer
new_signer priv_key key_id =
    if len priv_key == private_key_size
    then ok (record { priv_key = priv_key; key_id = if key_id == "" then "v1" else key_id })
    else err (len priv_key)

unfoldable pub signed_headers : Crypto → Signer → String → ℕ → Map String String
signed_headers c s body ts =
    ("Content-Type", "application/json")
    ∷ ("X-Postbox-Signature-Ed25519", c.encode (c.sign s.priv_key body))
    ∷ ("X-Postbox-Timestamp", c.format_int ts)
    ∷ ("X-Postbox-Key-Id", s.key_id)
    ∷ []

-- `|now - ts|`
abbrev pub age : ℕ → ℕ → ℕ
age now ts = if ltb now ts then ts - now else now - ts

unfoldable pub verify :
    Crypto → String → String → String → ℕ → ℕ → ℕ → Result VerifyError (Unit {0})
verify c pub_key body sig_b64 now ts max_age =
    if ltb max_age (age now ts) then err too_old else elim (c.decode sig_b64) [
      | none ↦ err bad_encoding
      | some sig ↦ if c.verify pub_key body sig then ok tt else err invalid_signature
    ]

-- The signature that a payload is sent with.
abbrev pub signature : Crypto → Signer → String → String
signature c s body = c.encode (c.sign s.priv_key body)

module _ (c : Crypto) (private public : String) (pair : IsKeyPair c private public) where
  -- The receiver accepts what a signer sends under the key of the pair exactly while the timestamp is
  -- within the allowed age, and otherwise reports it as too old.
  pub verify-signed_headers :
      (s : Signer) (body : String) (now ts max_age : ℕ)
      → s.priv_key ≡ private
      → (get "X-Postbox-Signature-Ed25519" (signed_headers c s body ts) ≡ some (signature c s body))
        × (verify c public body (signature c s body) now ts max_age
            ≡ (if leb (age now ts) max_age then ok tt else err too_old))
  unfolding verify signed_headers get
  verify-signed_headers s body now ts max_age e =
      (refl, rw e (ground (arith, pair.verifies body, pair.decodes (c.sign private body))))

-- The timestamp is not signed: a signature that was once accepted for a body is accepted with every
-- later timestamp that is fresh when it is presented.
pub verify-replay :
    (c : Crypto) (pub_key body sig : String) (now ts max_age now' ts' : ℕ)
    → verify c pub_key body sig now ts max_age ≡ ok tt
    → age now' ts' ≤ max_age
    → verify c pub_key body sig now' ts' max_age ≡ ok tt
unfolding verify
verify-replay c pub_key body sig now ts max_age now' ts' h f = ground arith
