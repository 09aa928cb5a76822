-- ===== src/NodeKey/Startup.antt =====
-- What a start does to the key of a node.
use postbox.Common.{String, ◌≡◌, ◌≢◌, some, string_Eq, ok, arith, eq_iff, ℕ, suc, ap}
use Prim.Native.String.{len}
use postbox.Common.Map.{get, get-put}
use postbox.Store.{Node}
use postbox.MemStore.{MemStore, save_node, get_node, keep_keys}
use postbox.NodeKey.{
  Base64, Generated, keys, ensure_key, decode_private, decode_public, private_key_size,
  public_key_size, start_key,
}

module _ (b : Base64) (pub_key priv_key : String)
    (decodes : (text : String) → b.decode (b.encode text) ≡ some text)
    (sized : len priv_key ≡ private_key_size) (public_sized : len pub_key ≡ public_key_size)
    (nonempty : (text : String) → b.encode text ≡ "" → text ≡ "") where
  -- What encodes to nothing is nothing, and a key of some length is not.
  encode_key : (key : String) (n : ℕ) → len key ≡ suc n → b.encode key ≢ ""
  encode_key key n e empty =
      let none_left : len key ≡ 0 = ap len (nonempty key empty) in omega arith

  abbrev fresh : String → Node
  fresh node_id = record {
    id = node_id;
    private_key_b64 = b.encode priv_key;
    public_key_b64 = b.encode pub_key;
  }

  -- With an encoding that decodes, and encodes nothing but the empty text to the empty text, and
  -- generated keys of the lengths of Ed25519, a start of a named node succeeds with the generated keys, which the decoders read
  -- back, and which are then the stored ones: whatever keys the node had before are
  -- replaced.
  pub start_key-replaces :
      (node_id : String) (s : MemStore)
      → node_id ≢ ""
      → let (s', r) = start_key b (keys pub_key priv_key) node_id s in
        (r ≡ ok (fresh node_id))
        × (get_node node_id s' ≡ ok (fresh node_id))
        × (decode_private b (fresh node_id).private_key_b64 ≡ ok priv_key)
        × (decode_public b (fresh node_id).public_key_b64 ≡ ok pub_key)
  unfolding start_key ensure_key save_node get_node decode_private decode_public
  start_key-replaces node_id s named = ground (
    arith,
    eq_iff node_id "",
    eq_iff node_id node_id,
    eq_iff (b.encode priv_key) "",
    eq_iff (b.encode pub_key) "",
    encode_key priv_key 63 sized,
    encode_key pub_key 31 public_sized,
    decodes priv_key,
    decodes pub_key,
    public_sized,
    get-put node_id node_id (keep_keys (get node_id s.nodes) (fresh node_id)) s.nodes,
    sized,
  )

  -- Once `EnsureKey` has returned a node, a call on that
  -- node returns it again and changes nothing, whatever keys would be generated.
  pub ensure_key-ensure_key :
      (g : Generated) (node n : Node) (s : MemStore)
      → let (s', r) = ensure_key b (keys pub_key priv_key) node s in
        r ≡ ok n → ensure_key b g n s' ≡ (s', ok n)
  unfolding ensure_key save_node
  ensure_key-ensure_key g node n s h =
      ground (arith, eq_iff n.private_key_b64 "", encode_key priv_key 63 sized)
