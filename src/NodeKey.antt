-- ===== src/NodeKey.antt =====
-- internal/nodekey/nodekey.go, and the start of a node in internal/server/node.go that uses it.
-- Ed25519 and base64 are parameters.
pub mod Startup
use Prim.Native.String.{len}
use postbox.Common.{
  ℕ, String, Option, none, some, nat_Eq, string_Eq, ◌==◌, if◌then◌else◌, Result, ok, err, ◌>>=◌,
  true, false,
}
use postbox.Store.{Node, Error}
use postbox.MemStore.{MemStore, save_node}

-- `base64.StdEncoding`; a text stands for bytes too.
pub record Base64 : Type 0 where
  pub encode : String → String
  pub decode : String → Option String

-- What `ed25519.GenerateKey` returns: the public and the private key, or an error.
pub data Generated : Type 0 where
  keys : String → String → Generated
  no_entropy : Generated

pub data KeyError : Type 0 where
  generate : KeyError
  persist : Error → KeyError
  bad_base64 : KeyError
  bad_length : ℕ → KeyError

-- The end of `EnsureKey`: the node is returned if it was saved.
abbrev persisted : Node → MemStore × Result Error (Unit {0}) → MemStore × Result KeyError Node
persisted node (s, ok u) = (s, ok node)
persisted node (s, err e) = (s, err (persist e))

abbrev with_keys : Base64 → Node → String → String → Node
with_keys b node pub_key priv_key = record node {
  private_key_b64 = b.encode priv_key;
  public_key_b64 = b.encode pub_key;
}

-- `EnsureKey`
unfoldable pub ensure_key : Base64 → Generated → Node → MemStore → MemStore × Result KeyError Node
ensure_key b g node s =
    if node.private_key_b64 == ""
    then elim g [
      | no_entropy ↦ (s, err generate)
      | keys pub_key priv_key ↦
          let node' = with_keys b node pub_key priv_key in persisted node' (save_node node' s)
    ]
    else (s, ok node)

abbrev pub private_key_size : ℕ
private_key_size = 64

abbrev pub public_key_size : ℕ
public_key_size = 32

decode_sized : Base64 → ℕ → String → Result KeyError String
decode_sized b size text = elim (b.decode text) [
  | none ↦ err bad_base64
  | some raw ↦ if len raw == size then ok raw else err (bad_length (len raw))
]

-- `DecodePrivate`
unfoldable pub decode_private : Base64 → String → Result KeyError String
unfolding decode_sized
decode_private b text = decode_sized b private_key_size text

-- `DecodePublic`
unfoldable pub decode_public : Base64 → String → Result KeyError String
unfolding decode_sized
decode_public b text = decode_sized b public_key_size text

-- `NewController`, as far as the node's key: the node is made with its id alone.
unfoldable pub start_key : Base64 → Generated → String → MemStore → MemStore × Result KeyError Node
start_key b g node_id s =
    ensure_key b g (record { id = node_id; private_key_b64 = ""; public_key_b64 = "" }) s
