-- ===== src/Examples/Tries.antt =====
-- A small trie: its root refers by the hash to a leaf, whose key is the byte 0x12.
use uniqys_kit.Prelude.{
  ℕ, zero, suc, ◌≡◌, refl, sym, ap, ok-injective, of_option, ◌∙◌, true, [], ◌∷◌, Option, none, some,
  arith, Result, ok, err, Bool-cases, inl, inr, not_found, if◌then◌else◌, ◌==◌,
}
use uniqys_kit.Types.FixedBytes.{equals, equals_refl, equals→eq}
use uniqys_kit.Serialize.Buffer.{
  append, resize, grow, copy, new_writer, contents, ensure, write_through,
}
use uniqys_kit.Serialize.Integers.{be_bytes, write_uint_be}
use uniqys_kit.Serialize.Codec
use uniqys_kit.Serialize.UInt32
use uniqys_kit.Signature.{Hash}
use uniqys_kit.Signature.Keys.{from_data}
use uniqys_kit.Trie.Proof.{MerkleProof, load_operation, hash_operation, optimize, calculate, verify}
use uniqys_kit.Trie.Proof.Optimize.{calculate-optimize}
use uniqys_kit.Trie.Node.{
  Content, Node, node, Branch, absent, of_hash, empty_branch, update, get, set, delete,
}
use uniqys_kit.Trie.Node.Readable.{Readable, readable, no_child, stored_child}
use uniqys_kit.Trie.Node.Total.{get-set, get-delete}
use uniqys_kit.Trie.Hashing.{
  hash, content_serialize, prove, joined, optional_bytes, save, each_child,
}
use uniqys_kit.Trie.Hashing.Provable.{prove-IsVerified}
use uniqys_kit.Trie.Hashing.Saving.{prefix_of, save-replaces}
use uniqys_kit.Trie.Normal.{normalize}
use uniqys_kit.Trie.Normal.Lookup.{get_root}
use uniqys_kit.Trie.Normal.Total.{get-normalize}
use uniqys_kit.Examples.Toy.{toy, hash_of}

abbrev content_12 : Content
content_12 = record { key = 0x12 ∷ []; value = 7 ∷ [] }

abbrev content_13 : Content
content_13 = record { key = 0x13 ∷ []; value = 8 ∷ [] }

abbrev leaf : Node
leaf = node (2 ∷ []) empty_branch (some content_12)

abbrev root : Node
root = node [] (update 1 (of_hash (hash_of 10)) empty_branch) none

-- The store has the leaf alone.
abbrev leaf_under_its_hash : Hash → Result Node
leaf_under_its_hash h = if equals h (hash_of 10) then ok leaf else err not_found

leaf-Readable : Readable leaf_under_its_hash leaf
unfolding empty_branch
leaf-Readable = readable (λ i. no_child)

root-Readable : Readable leaf_under_its_hash root
unfolding update empty_branch equals
root-Readable = readable (λ i. elim (Bool-cases (i == 1)) [
  | inl first ↦ rw first (stored_child refl leaf-Readable)
  | inr other ↦ rw other no_child
])

get-set_example :
    (n' : Node) × (set leaf_under_its_hash root (1 ∷ 3 ∷ []) content_13 ≡ ok n')
    × (get leaf_under_its_hash n' (1 ∷ 2 ∷ []) ≡ get leaf_under_its_hash root (1 ∷ 2 ∷ []))
unfolding equals
get-set_example =
    get-set leaf_under_its_hash root (1 ∷ 3 ∷ []) (1 ∷ 2 ∷ []) content_13 root-Readable

get-delete_example :
    (n' : Node) × (delete leaf_under_its_hash root (1 ∷ 2 ∷ []) ≡ ok n')
    × (get leaf_under_its_hash n' (1 ∷ 2 ∷ []) ≡ ok none)
unfolding equals
get-delete_example = get-delete leaf_under_its_hash root (1 ∷ 2 ∷ []) (1 ∷ 2 ∷ []) root-Readable

get-normalize_example :
    (r : Option Node) × (normalize leaf_under_its_hash root ≡ ok r)
    × (get_root leaf_under_its_hash (1 ∷ 2 ∷ []) r ≡ get leaf_under_its_hash root (1 ∷ 2 ∷ []))
get-normalize_example =
    get-normalize leaf_under_its_hash root (1 ∷ 2 ∷ []) root-Readable
      (omega arith, (omega arith, tt))

leaf-hash : hash toy leaf ≡ ok (hash_of 10)
unfolding hash content_serialize empty_branch from_data Codec.serialize UInt32.serialize
    write_uint_be be_bytes ensure write_through resize grow copy append new_writer contents joined
    optional_bytes
leaf-hash = refl

root-hash : hash toy root ≡ ok (hash_of 32)
unfolding hash update empty_branch joined optional_bytes from_data
root-hash = refl

root-get : get leaf_under_its_hash root (1 ∷ 2 ∷ []) ≡ ok (some content_12)
unfolding get equals update
root-get = refl

sound : (h : Hash) (n : Node) → leaf_under_its_hash h ≡ ok n → hash toy n ≡ ok h
sound h n e = elim (Bool-cases (equals h (hash_of 10))) [
  | inl found ↦
      let is : leaf ≡ n = ok-injective (rw found at e) in
      ap (hash toy) (sym is) ∙ leaf-hash ∙ ap ok (sym (equals→eq h (hash_of 10) found))
  | inr missing ↦ (let thrown : err not_found ≡ ok n = rw missing at e in absurd cc)
]

-- A store of nodes that is a function.
abbrev Nodes : Type 0
Nodes = Hash → Option Node

abbrev write : Hash → Node → Nodes → Result Nodes
write h n nodes = ok (λ g. if equals g h then some n else nodes g)

abbrev read : Hash → Nodes → Result Node
read h nodes = of_option not_found (nodes h)

read-write : (h : Hash) (n : Node) (s s' : Nodes) → write h n s ≡ ok s' → read h s' ≡ ok n
read-write h n s s' e = rw (← ok-injective e, equals_refl h) refl

abbrev nothing : Nodes
nothing h = none

-- The children that save puts together, one by one.
fill : ℕ → Branch
unfolding update empty_branch
fill zero = empty_branch
fill (suc n) = update n absent (fill n)

abbrev saved_leaf : Node
saved_leaf = node (2 ∷ []) (fill 16) (some content_12)

abbrev saved_longer : Node
saved_longer = node (1 ∷ 2 ∷ []) (fill 16) (some content_12)

abbrev longer : Node
longer = node (1 ∷ 2 ∷ []) empty_branch (some content_12)

abbrev with_leaf : Nodes
with_leaf g = if equals g (hash_of 10) then some saved_leaf else nothing g

abbrev with_longer : Nodes
with_longer g = if equals g (hash_of 10) then some saved_longer else with_leaf g

save-leaf : save toy write leaf nothing ≡ ok (saved_leaf, with_leaf)
unfolding fill save each_child update hash content_serialize empty_branch from_data Codec.serialize
    UInt32.serialize write_uint_be be_bytes ensure write_through resize grow copy append new_writer
    contents joined optional_bytes
save-leaf = refl

save-longer : save toy write longer with_leaf ≡ ok (saved_longer, with_longer)
unfolding fill save each_child update hash content_serialize empty_branch from_data Codec.serialize
    UInt32.serialize write_uint_be be_bytes ensure write_through resize grow copy append new_writer
    contents joined optional_bytes
save-longer = refl

-- The leaf is lost when another is saved that differs in the prefix.
save-replaces_example :
    (h : Hash) × (hash toy saved_leaf ≡ ok h)
    × (read h with_leaf ≡ ok saved_leaf)
    × (read h with_longer ≡ ok saved_longer)
    × (prefix_of saved_leaf ≡ 2 ∷ [])
    × (prefix_of saved_longer ≡ 1 ∷ 2 ∷ [])
save-replaces_example =
    save-replaces toy write read read-write (2 ∷ []) (1 ∷ 2 ∷ []) empty_branch (some content_12)
      saved_leaf saved_longer nothing with_leaf with_leaf with_longer save-leaf save-longer

prove-IsVerified_example :
    (proof : MerkleProof) × (prove toy leaf_under_its_hash root (1 ∷ 2 ∷ []) ≡ ok proof)
    × (verify toy (hash_of 32) (optimize proof) ≡ true)
prove-IsVerified_example =
    prove-IsVerified toy leaf_under_its_hash sound root (1 ∷ 2 ∷ []) content_12 (hash_of 32)
      (omega arith, (omega arith, tt)) root-get root-hash

abbrev two_loads : MerkleProof
two_loads = load_operation (1 ∷ []) ∷ load_operation (2 ∷ []) ∷ hash_operation 2 ∷ []

-- The two are squashed.
optimized : optimize two_loads ≡ load_operation (1 ∷ 2 ∷ []) ∷ hash_operation 2 ∷ []
unfolding optimize
optimized = refl

calculate-optimize_example : calculate toy (optimize two_loads) ≡ calculate toy two_loads
calculate-optimize_example = calculate-optimize toy two_loads
