-- ===== src/Examples/Nodes.antt =====
-- A node whose prefix has one alphabet, with a child and a content, in a store.
use uniqys_kit.Prelude.{
  ℕ, ◌≤◌, ◌==◌, ◌≡◌, refl, subst, true, false, Bool-cases, inl, inr, some, [], ◌∷◌, arith, ok,
}
use uniqys_kit.Types.ByteMap.{ByteMap}
use uniqys_kit.Types.FixedBytes.{Bytes, equals}
use uniqys_kit.Store.InMemory.{in_memory, in_memory-StoreLaws}
use uniqys_kit.Store.Interface.{Store}
use uniqys_kit.Trie.Node.{Content, Node, node, Branch, absent, of_hash, empty_branch, update}
use uniqys_kit.Trie.Store.{get_node, set_node, get_root}
use uniqys_kit.Trie.Store.Format.{ContentInRange, IsStored, IsStoredNode}
use uniqys_kit.Trie.Store.RoundTrip.{get_node-set_node}
use uniqys_kit.Examples.Toy.{hash_of}

abbrev memory : Store (ByteMap Bytes) Bytes
memory = in_memory (λ v. true)

abbrev content_12 : Content
content_12 = record { key = 0x12 ∷ []; value = 7 ∷ [] }

abbrev one_child : Branch
one_child = update 1 (of_hash (hash_of 10)) empty_branch

IsStored-one_child : (i : ℕ) → IsStored (one_child i)
unfolding update empty_branch
IsStored-one_child i = elim (Bool-cases (i == 1)) [
  | inl first ↦ rw first refl
  | inr other ↦ rw other tt
]

no_others : (i : ℕ) → 16 ≤ i → one_child i ≡ absent
unfolding update empty_branch
no_others i high = let other : (i == 1) ≡ false = ground arith in rw other refl

IsStoredNode-one_child : IsStoredNode (2 ∷ []) one_child (some content_12)
IsStoredNode-one_child = record {
  prefix_size = omega arith;
  prefix_alphabets = (omega arith, tt);
  stored = λ i low. IsStored-one_child i;
  no_others = no_others;
  content = λ x e.
      let same : content_12 ≡ x = cc in
      subst ContentInRange same (record { key = omega arith; value = omega arith });
}

abbrev stored : Node
stored = node (2 ∷ []) one_child (some content_12)

get_node-set_node_example :
    (s' : ByteMap Bytes) × (set_node memory (hash_of 10) stored [] ≡ ok s')
    × (get_node memory (hash_of 10) s' ≡ ok stored)
    × (get_node memory (hash_of 11) s' ≡ get_node memory (hash_of 11) [])
    × (get_root memory s' ≡ get_root memory [])
unfolding equals
get_node-set_node_example =
    get_node-set_node memory (in_memory-StoreLaws (λ v. true) (λ v. refl)) (hash_of 10) (hash_of 11)
      (2 ∷ []) one_child (some content_12) [] IsStoredNode-one_child refl
