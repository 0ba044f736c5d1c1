-- ===== src/Trie/Node/Readable.antt =====
-- packages/merkle-patricia-trie/src/merkle-patricia-trie/node.ts: what a store has to hold for a node.
use uniqys_kit.Prelude.{ℕ, ◌≡◌, refl, Option, Result, ok}
use uniqys_kit.Signature.{Hash}
use uniqys_kit.Trie.Keys.{Key}
use uniqys_kit.Trie.Node.{Content, Node, node, Child, absent, of_hash, of_node, Branch, on_child}

module _ (read : Hash → Result Node) where
  -- The nodes that are referred to by a hash from the node, and from those below it, are found.
  mutual
    pub data Readable : Node → Type 0 where
      readable :
          {p : Key} {children : Branch} {content : Option Content}
          → ((i : ℕ) → ReadableChild (children i))
          → Readable (node p children content)

    pub data ReadableChild : Child → Type 0 where
      no_child : ReadableChild absent
      in_place : {n : Node} → Readable n → ReadableChild (of_node n)
      stored_child : {h : Hash} {n : Node} → read h ≡ ok n → Readable n → ReadableChild (of_hash h)

  abbrev pub Returns : {A : Type 0} → Result A → Type 0
  Returns {A} result = (a : A) × (result ≡ ok a)

  pub children-Readable :
      (p : Key) (children : Branch) (content : Option Content)
      → Readable (node p children content)
      → (i : ℕ) → ReadableChild (children i)
  children-Readable p children content (readable each) = each

  pub on_child-Returns :
      {A : Type 0} (visit : Node → Result A) (nothing : A) (child : Child)
      → ReadableChild child
      → ((n : Node) → Readable n → Returns (visit n))
      → Returns (on_child read visit (ok nothing) child)
  unfolding on_child
  on_child-Returns visit nothing absent no_child each = (nothing, refl)
  on_child-Returns visit nothing (of_node n) (in_place r) each = each n r
  on_child-Returns visit nothing (of_hash h) (stored_child {n = n} e r) each = rw e (each n r)
