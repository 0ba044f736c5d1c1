-- ===== src/Trie/Normal.antt =====
-- packages/merkle-patricia-trie/src/merkle-patricia-trie/node.ts: normalize.
pub mod Lookup
pub mod Total
use uniqys_kit.Prelude.{ℕ, zero, suc, List, [], ◌∷◌, ◌++◌, Option, none, some, Result, ok, ◌>>=◌}
use uniqys_kit.Signature.{Hash}
use uniqys_kit.Trie.Keys.{Key}
use uniqys_kit.Trie.Node.{
  Content, Node, node, Child, absent, of_hash, of_node, Branch, empty_branch, update, on_child,
}

-- The children that are there, with their indices.
unfoldable pub present : ℕ → Child → List (ℕ × Child)
present i absent = []
present i (of_hash h) = (i, of_hash h) ∷ []
present i (of_node n) = (i, of_node n) ∷ []

unfoldable pub existing : ℕ → Branch → List (ℕ × Child)
unfolding present
existing zero children = []
existing (suc n) children = existing n children ++ present n (children n)

-- Promise.all on the first children.
unfoldable pub collect : ℕ → (ℕ → Result Child) → Result Branch
unfolding empty_branch update
collect zero visit = ok empty_branch
collect (suc n) visit = do before ← collect n visit; child ← visit n; ok (update n child before)

unfoldable pub as_reference : Option Node → Child
as_reference none = absent
as_reference (some n) = of_node n

-- The only child takes the place of its parent.
unfoldable pub behind : Key → ℕ → Node → Node
behind prefix index (node rest children content) = node (prefix ++ index ∷ rest) children content

module _ (read : Hash → Result Node) where
  unfoldable pub contract : Key → Branch → Option Content → List (ℕ × Child) → Result (Option Node)
  unfolding behind on_child
  contract prefix children (some content) refs = ok (some (node prefix children (some content)))
  contract prefix children none [] = ok none
  contract prefix children none ((index, ref) ∷ []) =
      on_child read (λ n. ok (some (behind prefix index n))) (ok none) ref
  contract prefix children none (first ∷ second ∷ refs) = ok (some (node prefix children none))

  unfoldable mutual
    unfolding contract collect existing as_reference

    pub normalize : Node → Result (Option Node)
    normalize (node prefix children content) = do
      normalized ← collect 16 (λ i. normalize_child (children i))
      contract prefix normalized content (existing 16 normalized)

    pub normalize_child : Child → Result Child
    normalize_child absent = ok absent
    normalize_child (of_hash h) = ok (of_hash h)
    normalize_child (of_node n) = do normalized ← normalize n; ok (as_reference normalized)
