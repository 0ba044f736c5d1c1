-- ===== src/Trie/Store/Format.antt =====
-- packages/merkle-patricia-trie/src/merkle-patricia-trie/node.ts: the wire format of contents, children
-- and nodes.
use uniqys_kit.Prelude.{
  ℕ, zero, suc, ◌^◌, ◌≤◌, ◌<◌, ◌==◌, ◌≡◌, refl, sym, ap, ◌∙◌, subst, fun_ext, Bool-cases, inl, inr,
  ltb, lt→ltb, le→ltb, ltb→lt, ==→eq, if◌then◌else◌, Option, none, some, [], ◌++◌, append-nil, All,
  length, arith, ok, ◌>>=◌,
}
use uniqys_kit.Serialize.Buffer.{append, consume}
use uniqys_kit.Serialize.Integers.{Deserializer}
use uniqys_kit.Serialize.Codec
use uniqys_kit.Serialize.Codec.{
  Part, Fits, Writes-append, Writes-nothing, Writes-bind, Reads-bind, Reads-ok, Part-then,
  Part-last, serialize-bytes, serialize-Writes, deserialize-serialize,
}
use uniqys_kit.Serialize.Codec.Numbers.{Fits-uint32}
use uniqys_kit.Serialize.Codec.Collections.{Reads-consume}
use uniqys_kit.Serialize.UInt32
use uniqys_kit.Types.FixedBytes
use uniqys_kit.Types.FixedBytes.{Bytes, equals, equals_refl}
use uniqys_kit.Types.Optional
use uniqys_kit.Types.Optional.{Fits-none, Fits-some}
use uniqys_kit.Signature.{Hash}
use uniqys_kit.Signature.Keys.{hash_deserialize}
use uniqys_kit.Signature.Recovery.{IsHash, Fits-hash}
use uniqys_kit.Trie.Keys.{Key, key_to_buffer, buffer_to_key}
use uniqys_kit.Trie.Node.{
  Content, Node, node, Child, absent, of_hash, of_node, Branch, empty_branch, update,
}
use uniqys_kit.Trie.Hashing.{content_serialize, content_deserialize}
use uniqys_kit.Trie.Store.{
  even_key, child_serialize, children_serialize, node_serialize, as_child, children_deserialize,
  buffer_size, without_filler, node_deserialize,
}
use uniqys_kit.Trie.Store.Keys.{even_key-read}

pub record ContentInRange (content : Content) : Type 0 where
  pub key : length content.key < 2 ^ 32
  pub value : length content.value < 2 ^ 32

Fits-content :
    (content : Content)
    → ContentInRange content
    → Fits content_serialize content_deserialize content
unfolding content_serialize content_deserialize
Fits-content content fits =
    let key_size = Fits-uint32 (length content.key) fits.key in
    let value_size = Fits-uint32 (length content.value) fits.value in
    let read_value : Bytes → ℕ → Deserializer Content =
      λ key n r. ok (record { key = key; value = (consume n r).0 }, (consume n r).1) in
    let read_rest : Bytes → Deserializer Content =
      λ key r. UInt32.deserialize r >>= λ (n, r'). read_value key n r' in
    record {
      bytes = key_size.bytes ++ (content.key ++ (value_size.bytes ++ content.value));
      writes =
          Writes-bind (UInt32.serialize (length content.key))
            (λ w. UInt32.serialize (length content.value) (append content.key w) >>= λ w₂.
              ok (append content.value w₂))
            key_size.bytes (content.key ++ (value_size.bytes ++ content.value)) key_size.writes
            (Writes-bind (λ w. ok (append content.key w))
              (λ w.
                UInt32.serialize (length content.value) w >>= λ w₂. ok (append content.value w₂))
              content.key (value_size.bytes ++ content.value) (Writes-append content.key)
              (Writes-bind (UInt32.serialize (length content.value))
                (λ w. ok (append content.value w)) value_size.bytes content.value value_size.writes
                (Writes-append content.value)));
      reads =
          Reads-bind UInt32.deserialize (λ n r. read_rest (consume n r).0 (consume n r).1)
            (length content.key) content key_size.bytes
            (content.key ++ (value_size.bytes ++ content.value)) key_size.reads
            (Reads-bind (λ r. ok (consume (length content.key) r)) read_rest content.key content
              content.key (value_size.bytes ++ content.value) (Reads-consume content.key)
              (Reads-bind UInt32.deserialize (read_value content.key) (length content.value) content
                value_size.bytes content.value value_size.reads
                (rw append-nil at (
                  Reads-bind (λ r. ok (consume (length content.value) r))
                    (λ value r. ok (record { key = content.key; value = value }, r)) content.value
                    content content.value [] (Reads-consume content.value) (Reads-ok content)))));
    }

-- The hash behind a child that is stored.
abbrev pub label_of : Child → Option Hash
label_of absent = none
label_of (of_hash h) = some h
label_of (of_node n) = none

abbrev pub IsStored : Child → Type 0
IsStored absent = Unit {0}
IsStored (of_hash h) = IsHash h
IsStored (of_node n) = ⊥

as_child-label_of : (child : Child) → IsStored child → as_child (label_of child) ≡ child
as_child-label_of absent stored = refl
as_child-label_of (of_hash h) stored = refl
as_child-label_of (of_node n) stored = absurd stored

Fits-child :
    (child : Child)
    → IsStored child
    → Part (child_serialize child) (Optional.deserialize hash_deserialize) (label_of child)
unfolding child_serialize
Fits-child absent stored = Fits-none FixedBytes.serialize hash_deserialize
Fits-child (of_hash h) stored =
    Fits-some FixedBytes.serialize hash_deserialize h (Fits-hash h stored)
Fits-child (of_node n) stored = absurd stored

-- The first children, as they are read.
first : ℕ → Branch → Branch
first zero children = empty_branch
first (suc n) children = update n (as_child (label_of (children n))) (first n children)

Fits-children :
    (n : ℕ) (children : Branch)
    → ((i : ℕ) → i < n → IsStored (children i))
    → Part (children_serialize n children) (children_deserialize n) (first n children)
unfolding children_serialize children_deserialize first
Fits-children zero children stored = record {
  bytes = [];
  writes = Writes-nothing;
  reads = Reads-ok empty_branch;
}
Fits-children (suc n) children stored =
    Part-then (λ b. children_serialize n children) (children_deserialize n) _
      (Fits-children n children (λ i low. stored i (omega (arith, low))))
      (Part-last (λ o. child_serialize (children n)) (Optional.deserialize hash_deserialize)
        (λ child. update n (as_child child) (first n children))
        (Fits-child (children n) (stored n (omega arith))))

first-at :
    (n : ℕ) (children : Branch) (j : ℕ)
    → ((i : ℕ) → i < n → IsStored (children i))
    → first n children j ≡ (if ltb j n then children j else absent)
unfolding first empty_branch update
first-at zero children j stored = rw (le→ltb j 0 (omega arith)) refl
first-at (suc n) children j stored = elim (Bool-cases (j == n)) [
  | inl same ↦
      let equal : j ≡ n = ==→eq j n same in
      rw
        (
          same,
          as_child-label_of (children n) (stored n (omega arith)),
          lt→ltb j (suc n) (omega (arith, equal)),
        )
        (ap children (sym equal))
  | inr other ↦
      let before = first-at n children j (λ i low. stored i (omega (arith, low))) in
      elim (Bool-cases (ltb j n)) [
        | inl low ↦ rw (other, before, low, lt→ltb j (suc n) (ground (arith, ltb→lt j n low))) refl
        | inr high ↦
            let past : suc n ≤ j = ground arith in
            rw (other, before, high, le→ltb j (suc n) past) refl
      ]
]

-- Nodes that the wire format can hold: with 16 children, which are stored.
pub record IsStoredNode (prefix : Key) (children : Branch) (held : Option Content) : Type 0 where
  pub prefix_size : length prefix < 2 ^ 32
  pub prefix_alphabets : All (λ a. a < 16) prefix
  pub stored : (i : ℕ) → i < 16 → IsStored (children i)
  pub no_others : (i : ℕ) → 16 ≤ i → children i ≡ absent
  pub content : (x : Content) → held ≡ some x → ContentInRange x

first-sixteen :
    (children : Branch)
    → ((i : ℕ) → i < 16 → IsStored (children i))
    → ((i : ℕ) → 16 ≤ i → children i ≡ absent)
    → first 16 children ≡ children
first-sixteen children stored none_after = fun_ext (λ j. elim (Bool-cases (ltb j 16)) [
  | inl low ↦ rw low at (first-at 16 children j stored)
  | inr high ↦ (rw high at (first-at 16 children j stored)) ∙ sym (none_after j (ground arith))
])

Fits-optional_content :
    (content : Option Content)
    → ((x : Content) → content ≡ some x → ContentInRange x)
    → Fits (Optional.serialize content_serialize) (Optional.deserialize content_deserialize) content
Fits-optional_content none fits = Fits-none content_serialize content_deserialize
Fits-optional_content (some x) fits =
    Fits-some content_serialize content_deserialize x (Fits-content x (fits x refl))

Fits-buffer :
    (size : ℕ) (buffer : Bytes)
    → length buffer ≡ size
    → Part (λ w. ok (append buffer w)) (λ r. ok (consume size r)) buffer
Fits-buffer size buffer e = record {
  bytes = buffer;
  writes = Writes-append buffer;
  reads = subst (λ n. Codec.Reads (λ r. ok (consume n r)) buffer buffer) e (Reads-consume buffer);
}

pub Fits-node :
    (prefix : Key) (children : Branch) (content : Option Content)
    → IsStoredNode prefix children content
    → Fits node_serialize node_deserialize (node prefix children content)
unfolding node_serialize node_deserialize
Fits-node prefix children content fits =
    let buffer = key_to_buffer (even_key prefix) in
    let (size, back) = even_key-read prefix fits.prefix_alphabets in
    let read_content : Bytes → Branch → Deserializer Node = λ bytes cs r.
      Optional.deserialize content_deserialize r >>= λ (c, r').
      ok (node (without_filler (length prefix) (buffer_to_key bytes)) cs c, r') in
    let read_children : Bytes → Deserializer Node =
      λ bytes r. children_deserialize 16 r >>= λ (cs, r'). read_content bytes cs r' in
    let whole : Part (node_serialize (node prefix children content)) node_deserialize
        (node (without_filler (length prefix) (buffer_to_key buffer)) (first 16 children) content) =
      Part-then UInt32.serialize UInt32.deserialize _ (Fits-uint32 (length prefix) fits.prefix_size)
        (Part-then (λ b w. ok (append b w)) (λ r. ok (consume (buffer_size (length prefix)) r))
          read_children (Fits-buffer (buffer_size (length prefix)) buffer size)
          (Part-then (λ b. children_serialize 16 children) (children_deserialize 16)
            (read_content buffer) (Fits-children 16 children fits.stored)
            (Part-last (Optional.serialize content_serialize)
              (Optional.deserialize content_deserialize)
              (λ c.
                node (without_filler (length prefix) (buffer_to_key buffer)) (first 16 children) c)
              (Fits-optional_content content fits.content)))) in
    subst (Part (node_serialize (node prefix children content)) node_deserialize)
      (ap (λ k. node k (first 16 children) content) back
        ∙ ap (λ b. node prefix b content) (first-sixteen children fits.stored fits.no_others))
      whole
