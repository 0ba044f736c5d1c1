-- ===== src/Trie/Hashing.antt =====
-- packages/merkle-patricia-trie/src/merkle-patricia-trie/node.ts: the hash of a node, its proofs, and
-- saving it. Promise.all on the children is taken in their order.
pub mod Pushes
pub mod Proofs
pub mod Provable
pub mod Saving
use uniqys_kit.Prelude.{
  ℕ, zero, suc, ◌+◌, List, [], ◌∷◌, ◌++◌, Option, none, some, ◌==◌, if◌then◌else◌, length, Result,
  ok, err, ◌>>=◌, out_of_fuel, type_error, key_does_not_exist,
}
use uniqys_kit.Types.FixedBytes.{Bytes}
use uniqys_kit.Serialize.Buffer.{append, consume}
use uniqys_kit.Serialize.Integers.{Serializer, Deserializer}
use uniqys_kit.Serialize.Codec
use uniqys_kit.Serialize.UInt32
use uniqys_kit.Signature.{Crypto, Hash}
use uniqys_kit.Signature.Keys.{from_data}
use uniqys_kit.Trie.Keys.{Key, match}
use uniqys_kit.Trie.Proof
use uniqys_kit.Trie.Proof.{MerkleProof, load_operation, value_operation}
use uniqys_kit.Trie.Node.{
  Content, Node, node, Child, absent, of_hash, of_node, Branch, empty_branch, update, descend,
}

unfoldable pub content_serialize : Serializer Content
content_serialize content w = do
  w₁ ← UInt32.serialize (length content.key) w
  w₂ ← UInt32.serialize (length content.value) (append content.key w₁)
  ok (append content.value w₂)

unfoldable pub content_deserialize : Deserializer Content
content_deserialize r = do
  (key_size, r₁) ← UInt32.deserialize r
  let (key, r₂) = consume key_size r₁
  (value_size, r₃) ← UInt32.deserialize r₂
  let (value, r₄) = consume value_size r₃
  ok (record { key = key; value = value }, r₄)

abbrev pub content_bytes : Content → Result Bytes
content_bytes content = Codec.serialize content_serialize content

-- What a loop on the children puts together.
unfoldable pub joined {ℓ} : {A : Type ℓ} → ℕ → (ℕ → Result (List A)) → Result (List A)
joined zero part = ok []
joined (suc n) part = do before ← joined n part; here ← part n; ok (before ++ here)

module _ (c : Crypto) where
  unfoldable pub optional_bytes : Option Content → Result Bytes
  optional_bytes none = ok []
  optional_bytes (some content) = content_bytes content

  unfoldable mutual
    unfolding joined optional_bytes from_data

    pub hash : Node → Result Hash
    hash (node prefix children content) = do
      hashes ← joined 16 (λ i. child_hash (children i))
      rest ← optional_bytes content
      ok (from_data c (hashes ++ rest))

    -- The hash behind a reference, and nothing where there is no child.
    pub child_hash : Child → Result Bytes
    child_hash absent = ok []
    child_hash (of_hash h) = ok h
    child_hash (of_node n) = hash n

  -- What the other children leave on the stack of a proof.
  unfoldable pub load_child : Child → Result MerkleProof
  unfolding hash
  load_child absent = ok []
  load_child (of_hash h) = ok (load_operation h ∷ [])
  load_child (of_node n) = do h ← hash n; ok (load_operation h ∷ [])

  unfoldable pub load_content : Option Content → Result MerkleProof
  load_content none = ok []
  load_content (some content) = do bytes ← content_bytes content; ok (load_operation bytes ∷ [])

  -- The proof of the content of a node: with no content, the rest of the key has no first
  -- alphabet, and there is no child at `undefined`.
  unfoldable pub prove_here : Branch → Option Content → Result MerkleProof
  unfolding load_child joined
  prove_here children none = err type_error
  prove_here children (some content) = do
    proof ← joined 16 (λ i. load_child (children i))
    bytes ← content_bytes content
    ok (Proof.hash (Proof.value bytes proof))

  module _ (read : Hash → Result Node) where
    -- The proof of a child goes on with the rest of the key, in the place of its hash.
    unfoldable pub prove_child : (Node → Result MerkleProof) → Child → Result (Option MerkleProof)
    prove_child visit absent = ok none
    prove_child visit (of_hash h) = do n ← read h; proof ← visit n; ok (some proof)
    prove_child visit (of_node n) = do proof ← visit n; ok (some proof)

    unfoldable pub prove_below :
        Branch → Option Content → ℕ → Option MerkleProof → Result MerkleProof
    unfolding load_child load_content joined
    prove_below children content a none = err key_does_not_exist
    prove_below children content a (some child_proof) = do
      proof ← joined 16 (λ i. if i == a then ok child_proof else load_child (children i))
      last ← load_content content
      ok (Proof.hash (proof ++ last))

    unfoldable pub prove_from : ℕ → Node → Key → Result MerkleProof
    unfolding descend match prove_here prove_child prove_below
    prove_from zero n key = err out_of_fuel
    prove_from (suc fuel) (node prefix children content) key =
        descend (prove_here children content)
          (λ a rest. do
            child_proof ← prove_child (λ n. prove_from fuel n rest) (children a)
            prove_below children content a child_proof)
          (λ x rest. err key_does_not_exist) (match prefix key).remain₁ (match prefix key).remain₂

    unfoldable pub prove : Node → Key → Result MerkleProof
    unfolding prove_from
    prove n key = prove_from (suc (length key)) n key

  -- A store of nodes, with the state passed on.
  module _ {State : Type 0} (write : Hash → Node → State → Result State) where
    -- The children one after the other, each in its place.
    unfoldable pub each_child :
        ℕ → (ℕ → State → Result (Child × State)) → State → Result (Branch × State)
    unfolding empty_branch update
    each_child zero visit s = ok (empty_branch, s)
    each_child (suc n) visit s = do
      (children, s₁) ← each_child n visit s
      (child, s₂) ← visit n s₁
      ok (update n child children, s₂)

    unfoldable mutual
      unfolding each_child hash

      pub save : Node → State → Result (Node × State)
      save (node prefix children content) s = do
        (saved, s₁) ← each_child 16 (λ i t. save_child (children i) t) s
        h ← hash (node prefix saved content)
        s₂ ← write h (node prefix saved content) s₁
        ok (node prefix saved content, s₂)

      pub save_child : Child → State → Result (Child × State)
      save_child absent s = ok (absent, s)
      save_child (of_hash h) s = ok (of_hash h, s)
      save_child (of_node n) s = do (saved, s₁) ← save n s; h ← hash saved; ok (of_hash h, s₁)
