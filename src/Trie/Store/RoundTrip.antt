-- ===== src/Trie/Store/RoundTrip.antt =====
-- packages/merkle-patricia-trie/src/merkle-patricia-trie/trie-store.ts: nodes that are stored are read back.
use uniqys_kit.Prelude.{
  ◌≡◌, sym, ap, ◌∙◌, true, false, Option, [], ◌∷◌, arith, ok, ◌>>=◌, of_option, not_found,
}
use uniqys_kit.Serialize.Buffer.{append, ensure, write_through}
use uniqys_kit.Serialize.Codec
use uniqys_kit.Serialize.Codec.{
  Part, Fits, Writes-append, Writes-nothing, Writes-bind, Reads-bind, Reads-ok, Part-then,
  Part-last, serialize-bytes, serialize-Writes, deserialize-serialize,
}
use uniqys_kit.Types.FixedBytes.{Bytes, equals, equals_refl}
use uniqys_kit.Signature.{Hash}
use uniqys_kit.Store.Interface.{Store, StoreLaws}
use uniqys_kit.Blockchain.BlockStore.{write_prefix}
use uniqys_kit.Blockchain.BlockStore.Keys.{Writes-prefix}
use uniqys_kit.Trie.Keys.{Key}
use uniqys_kit.Trie.Node.{Content, Node, node, Branch}
use uniqys_kit.Trie.Store.{
  node_serialize, node_deserialize, root_key, node_prefix, node_key, get_node, set_node, root_in,
  get_root,
}
use uniqys_kit.Trie.Store.Format.{IsStoredNode, Fits-node}

node_key-bytes : (hash : Hash) → node_key hash ≡ ok (node_prefix ∷ hash)
unfolding node_key write_prefix
node_key-bytes hash =
    serialize-Writes
      (λ h w.
        let (slice, w₁) = ensure 1 w in ok (append h (write_through slice 0 (node_prefix ∷ []) w₁)))
      hash (node_prefix ∷ hash)
      (Writes-bind (write_prefix node_prefix) (λ w. ok (append hash w)) (node_prefix ∷ []) hash
        (Writes-prefix node_prefix (omega arith)) (Writes-append hash))

module _ {State : Type 0} (store : Store State Bytes) where
  get_node-at :
      (hash : Hash) (s : State)
      → get_node store hash s ≡ (
          of_option not_found (store.get (node_prefix ∷ hash) s)
          >>= Codec.deserialize node_deserialize)
  unfolding get_node
  get_node-at hash s =
      ap
        (λ k.
          k >>= λ key. of_option not_found (store.get key s) >>= Codec.deserialize node_deserialize)
        (node_key-bytes hash)

  set_node-at :
      (hash : Hash) (n : Node) (fits : Fits node_serialize node_deserialize n) (s : State)
      → set_node store hash n s ≡ ok (store.set (node_prefix ∷ hash) fits.bytes s)
  unfolding set_node
  set_node-at hash n fits s =
      ap
        (λ k. k >>= λ key. Codec.serialize node_serialize n >>= λ bytes. ok (store.set key bytes s))
        (node_key-bytes hash)
      ∙ ap (λ b. b >>= λ bytes. ok (store.set (node_prefix ∷ hash) bytes s))
          (serialize-bytes node_serialize node_deserialize n fits)

  -- With a store that keeps the laws: a node is stored under a hash, and found there as it was, if
  -- the alphabets of its prefix are below 16, it has 16 children, each absent or behind a hash, and
  -- the sizes fit the format. Nodes under another hash and the root are found as before.
  pub get_node-set_node :
      (laws : StoreLaws State Bytes store) (hash other : Hash) (prefix : Key) (children : Branch)
      (content : Option Content) (s : State)
      → IsStoredNode prefix children content
      → equals hash other ≡ false
      → (s' : State) × (set_node store hash (node prefix children content) s ≡ ok s')
        × (get_node store hash s' ≡ ok (node prefix children content))
        × (get_node store other s' ≡ get_node store other s)
        × (get_root store s' ≡ get_root store s)
  unfolding get_root equals
  get_node-set_node laws hash other prefix children content s stored apart =
      let n = node prefix children content in
      let fits = Fits-node prefix children content stored in
      let read =
        rw (serialize-bytes node_serialize node_deserialize n fits) at
          (deserialize-serialize node_serialize node_deserialize n fits) in
      let same : equals hash hash ≡ true = equals_refl hash in
      let get = λ (key : Bytes). laws.get-set (node_prefix ∷ hash) key fits.bytes s in
      (
        store.set (node_prefix ∷ hash) fits.bytes s,
        set_node-at hash n fits s,
        get_node-at hash (store.set (node_prefix ∷ hash) fits.bytes s)
            ∙ rw (get (node_prefix ∷ hash), same) read,
        get_node-at other (store.set (node_prefix ∷ hash) fits.bytes s)
            ∙ rw (get (node_prefix ∷ other), apart) (sym (get_node-at other s)),
        ap (root_in store) (get root_key),
      )
