-- ===== src/Trie/Store.antt =====
-- packages/merkle-patricia-trie/src/merkle-patricia-trie/trie-store.ts, and the wire format of a node
-- in node.ts.
pub mod Keys
pub mod Format
pub mod RoundTrip
use uniqys_kit.Prelude.{
  ℕ, zero, suc, ◌+◌, ◌/◌, ◌%◌, Bool, [], ◌∷◌, Option, none, some, ◌==◌, if◌then◌else◌, length, drop,
  Result, ok, err, ◌>>=◌, of_option, not_found, children_not_stored,
}
use uniqys_kit.Serialize.Buffer.{ensure, write_through, append, consume}
use uniqys_kit.Serialize.Integers.{Serializer, Deserializer}
use uniqys_kit.Serialize.Codec
use uniqys_kit.Serialize.UInt32
use uniqys_kit.Types.FixedBytes
use uniqys_kit.Types.FixedBytes.{Bytes}
use uniqys_kit.Types.Optional
use uniqys_kit.Signature.{Hash}
use uniqys_kit.Signature.Keys.{hash_deserialize}
use uniqys_kit.Store.Interface.{Store}
use uniqys_kit.Trie.Keys.{Key, key_to_buffer, buffer_to_key}
use uniqys_kit.Trie.Node.{Node, node, Child, absent, of_hash, of_node, Branch, empty_branch, update}
use uniqys_kit.Trie.Hashing.{content_serialize, content_deserialize}

abbrev pub is_even : Key → Bool
is_even key = length key % 2 == 0

-- Made even by a zero in front.
abbrev pub even_key : Key → Key
even_key key = if is_even key then key else 0 ∷ key

unfoldable pub child_serialize : Serializer Child
child_serialize absent w = Optional.serialize FixedBytes.serialize none w
child_serialize (of_hash h) w = Optional.serialize FixedBytes.serialize (some h) w
child_serialize (of_node n) w = err children_not_stored

-- The first children.
unfoldable pub children_serialize : ℕ → Serializer Branch
unfolding child_serialize
children_serialize zero children w = ok w
children_serialize (suc n) children w = do
  w₁ ← children_serialize n children w
  child_serialize (children n) w₁

unfoldable pub node_serialize : Serializer Node
unfolding children_serialize
node_serialize (node prefix children content) w = do
  w₁ ← UInt32.serialize (length prefix) w
  w₂ ← children_serialize 16 children (append (key_to_buffer (even_key prefix)) w₁)
  Optional.serialize content_serialize content w₂

abbrev pub as_child : Option Hash → Child
as_child none = absent
as_child (some h) = of_hash h

unfoldable pub children_deserialize : ℕ → Deserializer Branch
unfolding empty_branch update
children_deserialize zero r = ok (empty_branch, r)
children_deserialize (suc n) r = do
  (before, r₁) ← children_deserialize n r
  (child, r₂) ← Optional.deserialize hash_deserialize r₁
  ok (update n (as_child child) before, r₂)

abbrev pub buffer_size : ℕ → ℕ
buffer_size key_length = (if key_length % 2 == 0 then key_length else key_length + 1) / 2

abbrev pub without_filler : ℕ → Key → Key
without_filler key_length key = if key_length % 2 == 0 then key else drop 1 key

unfoldable pub node_deserialize : Deserializer Node
unfolding children_deserialize
node_deserialize r = do
  (key_length, r₁) ← UInt32.deserialize r
  let (buffer, r₂) = consume (buffer_size key_length) r₁
  (children, r₃) ← children_deserialize 16 r₂
  (content, r₄) ← Optional.deserialize content_deserialize r₃
  ok (node (without_filler key_length (buffer_to_key buffer)) children content, r₄)

-- The characters of 'root', and the first one of 'node:'.
abbrev pub root_key : Bytes
root_key = 114 ∷ 111 ∷ 111 ∷ 116 ∷ []

abbrev pub node_prefix : ℕ
node_prefix = 110

-- `w.ensure(1).write(NODE_PREFIX, 0, 1)` writes the first character alone.
unfoldable pub node_key : Hash → Result Bytes
node_key hash =
    Codec.serialize
      (λ h w.
        let (slice, w₁) = ensure 1 w in ok (append h (write_through slice 0 (node_prefix ∷ []) w₁)))
      hash

module _ {State : Type 0} (store : Store State Bytes) where
  unfoldable pub get_node : Hash → State → Result Node
  unfolding node_key node_deserialize
  get_node hash s = do
    key ← node_key hash
    bytes ← of_option not_found (store.get key s)
    Codec.deserialize node_deserialize bytes

  unfoldable pub set_node : Hash → Node → State → Result State
  unfolding node_key node_serialize
  set_node hash value s = do
    key ← node_key hash
    bytes ← Codec.serialize node_serialize value
    ok (store.set key bytes s)

  unfoldable pub root_in : Option Bytes → Result (Option Hash)
  root_in none = ok none
  root_in (some bytes) = do h ← Codec.deserialize hash_deserialize bytes; ok (some h)

  unfoldable pub get_root : State → Result (Option Hash)
  unfolding root_in
  get_root s = root_in (store.get root_key s)

  unfoldable pub set_root : Hash → State → Result State
  set_root hash s = do
    bytes ← Codec.serialize FixedBytes.serialize hash
    ok (store.set root_key bytes s)
