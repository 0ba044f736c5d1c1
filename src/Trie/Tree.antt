-- ===== src/Trie/Tree.antt =====
-- packages/merkle-patricia-trie/src/merkle-patricia-trie/index.ts: MerklePatriciaTrie on a store. The
-- state after a method that throws is left out, and so are the iterators.
use uniqys_kit.Prelude.{
  Bool, true, List, [], ◌∷◌, Option, none, some, if◌then◌else◌, Result, ok, err, guard, ◌>>=◌, ◌>>◌,
  range_error, trie_not_ready,
}
use uniqys_kit.Serialize.Codec
use uniqys_kit.Types.FixedBytes.{Bytes}
use uniqys_kit.Signature.{Crypto, Hash}
use uniqys_kit.Store.Interface.{Store}
use uniqys_kit.Trie.Keys.{buffer_to_key}
use uniqys_kit.Trie.Proof
use uniqys_kit.Trie.Proof.{MerkleProof, verify, optimize}
use uniqys_kit.Trie.Node
use uniqys_kit.Trie.Node.{Content, Node, null}
use uniqys_kit.Trie.Hashing
use uniqys_kit.Trie.Hashing.{content_deserialize, save}
use uniqys_kit.Trie.Normal.{normalize}
use uniqys_kit.Trie.Store.{get_node, set_node, get_root, set_root}

pub record KeyValueProof : Type 0 where
  pub key : Bytes
  pub value : Bytes
  pub proof : MerkleProof

abbrev pub first_value : List Bytes → Result Bytes
first_value [] = err range_error
first_value (value ∷ values) = ok value

-- new KeyValueProof(proof)
unfoldable pub key_value_proof : MerkleProof → Result KeyValueProof
key_value_proof proof = do
  bytes ← first_value (Proof.values proof)
  content ← Codec.deserialize content_deserialize bytes
  ok (record { key = content.key; value = content.value; proof = proof })

pub record MerklePatriciaTrie (State : Type 0) : Type 0 where
  pub store : State
  pub root_hash : Hash
  pub is_ready : Bool

module _ (c : Crypto) {State : Type 0} (store : Store State Bytes) where
  -- The trie that has the root which the store names, or the empty one.
  unfoldable pub with_root : Option Hash → State → Result (MerklePatriciaTrie State)
  with_root (some h) s = ok (record { store = s; root_hash = h; is_ready = true })
  with_root none s = do
    h ← Hashing.hash c null
    s₁ ← set_node store h null s
    s₂ ← set_root store h s₁
    ok (record { store = s₂; root_hash = h; is_ready = true })

  unfoldable pub ready : MerklePatriciaTrie State → Result (MerklePatriciaTrie State)
  unfolding with_root
  ready t = if t.is_ready then ok t else (do root ← get_root store t.store; with_root root t.store)

  unfoldable pub check_ready : MerklePatriciaTrie State → Result (Unit {0})
  check_ready t = guard t.is_ready trie_not_ready

  abbrev pub reading : MerklePatriciaTrie State → Hash → Result Node
  reading t h = get_node store h t.store

  abbrev pub value_of : Option Content → Option Bytes
  value_of none = none
  value_of (some content) = some content.value

  unfoldable pub get : Bytes → MerklePatriciaTrie State → Result (Option Bytes)
  unfolding check_ready
  get key t = do
    check_ready t
    root ← reading t t.root_hash
    found ← Node.get (reading t) root (buffer_to_key key)
    ok (value_of found)

  -- The new root and the store with its nodes; Node.null is there from the start.
  unfoldable pub save_root : Option Node → State → Result (Node × State)
  save_root none s = ok (null, s)
  save_root (some n) s = save c (set_node store) n s

  unfoldable pub save_tree : Node → MerklePatriciaTrie State → Result (MerklePatriciaTrie State)
  unfolding save_root
  save_tree root t = do
    normalized ← normalize (reading t) root
    (new_root, s₁) ← save_root normalized t.store
    h ← Hashing.hash c new_root
    s₂ ← set_root store h s₁
    ok (record { store = s₂; root_hash = h; is_ready = t.is_ready })

  unfoldable pub set : Bytes → Bytes → MerklePatriciaTrie State → Result (MerklePatriciaTrie State)
  unfolding check_ready save_tree
  set key value t = do
    check_ready t
    root ← reading t t.root_hash
    n ← Node.set (reading t) root (buffer_to_key key) (record { key = key; value = value })
    save_tree n t

  unfoldable pub delete : Bytes → MerklePatriciaTrie State → Result (MerklePatriciaTrie State)
  unfolding check_ready save_tree
  delete key t = do
    check_ready t
    root ← reading t t.root_hash
    n ← Node.delete (reading t) root (buffer_to_key key)
    save_tree n t

  -- With no prefix, the key is empty.
  unfoldable pub clear : Bytes → MerklePatriciaTrie State → Result (MerklePatriciaTrie State)
  unfolding check_ready save_tree
  clear prefix t = do
    check_ready t
    root ← reading t t.root_hash
    n ← Node.clear (reading t) root (buffer_to_key prefix)
    save_tree n t

  unfoldable pub rollback : Hash → MerklePatriciaTrie State → Result (MerklePatriciaTrie State)
  unfolding check_ready
  rollback root t = do check_ready t; ok (record t { root_hash = root })

  unfoldable pub prove : Bytes → MerklePatriciaTrie State → Result KeyValueProof
  unfolding check_ready key_value_proof
  prove key t = do
    check_ready t
    root ← reading t t.root_hash
    proof ← Hashing.prove c (reading t) root (buffer_to_key key)
    key_value_proof (optimize proof)

  unfoldable pub verify_proof : Hash → KeyValueProof → Bool
  verify_proof expect p = verify c expect p.proof
