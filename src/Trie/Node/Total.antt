-- ===== src/Trie/Node/Total.antt =====
-- packages/merkle-patricia-trie/src/merkle-patricia-trie/node.ts: where the store has every node
-- that is referred to, set and delete return; so the trie is a map.
use uniqys_kit.Prelude.{
  ℕ, zero, suc, ◌+◌, ◌<◌, ◌≤◌, ◌≡◌, refl, subst, ◌∙◌, ◌∷◌, none, some, ◌==◌, if◌then◌else◌, length,
  arith, Result, ok, ◌>>=◌, false, ==-comm,
}
use uniqys_kit.Types.FixedBytes.{equals}
use uniqys_kit.Signature.{Hash}
use uniqys_kit.Trie.Keys.{Key, match, strip, standing, exact, below, apart, parting, starts_with}
use uniqys_kit.Trie.Node.{
  Content, Node, node, Child, absent, of_node, Branch, empty_branch, update, descend, on_child, get,
  set_from, set, as_child, delete_from, delete,
}
use uniqys_kit.Trie.Node.Lookup.{strip-length}
use uniqys_kit.Trie.Node.Readable.{Readable, Returns, children-Readable, on_child-Returns}
use uniqys_kit.Trie.Node.Updates.{set_from-get, delete_from-get}

module _ (read : Hash → Result Node) where
  then-Returns :
      {A B : Type 0} (r : Result A) (f : A → B)
      → Returns read r
      → Returns read (r >>= λ a. ok (f a))
  then-Returns r f (a, e) = (f a, rw e refl)

  update-other :
      (x a : ℕ) (child : Child) (children : Branch)
      → (a == x) ≡ false
      → update x child children a ≡ children a
  unfolding update
  update-other x a child children h = rw h refl

  -- A node that was split at the key: the rest of the key is not below the child.
  set_from-split :
      (fuel : ℕ) (p : Key) (x : ℕ) (child : Child) (k r : Key) (content : Content)
      → strip p k ≡ some r
      → starts_with x r ≡ false
      → Returns read
          (set_from read (suc fuel) (node p (update x child empty_branch) none) k content)
  unfolding set_from descend update empty_branch on_child
  set_from-split fuel p x child k r content h start = elim (standing p k) [
    | exact r₁ r₂ s ↦ rw (r₁, r₂) (_, refl)
    | below a u r₁ r₂ s ↦
        let rest : r ≡ a ∷ u = cc in
        let other : (a == x) ≡ false =
          ==-comm a x ∙ subst (λ t. starts_with x t ≡ false) rest start in
        rw (r₁, r₂, update-other x a child empty_branch other) (_, refl)
    | apart y ys r₁ s ↦ cc
  ]

  set_from-Returns :
      (fuel : ℕ) (n : Node) (k : Key) (content : Content)
      → Readable read n
      → 2 + length k ≤ fuel
      → Returns read (set_from read fuel n k content)
  unfolding set_from descend
  set_from-Returns zero n k content r h = absurd (omega arith)
  set_from-Returns (suc zero) n k content r h = absurd (omega arith)
  set_from-Returns (suc (suc fuel)) (node p children old) k content r h = elim (standing p k) [
    | exact r₁ r₂ s ↦ rw (r₁, r₂) (_, refl)
    | below a u r₁ r₂ s ↦
        let shorter = strip-length p k a u s in
        rw (r₁, r₂)
          (then-Returns _ (λ child. node p (update a (of_node child) children) old)
            (on_child-Returns read (λ n. set_from read (suc fuel) n u content) _ (children a)
              (children-Readable read p children old r a)
              (λ n below. set_from-Returns (suc fuel) n u content below (omega arith))))
    | apart x xs r₁ s ↦
        let (rest, e, start) = parting p k x xs r₁ in
        rw r₁ (set_from-split fuel (match p k).prefix x _ k rest content e start)
  ]

  delete_from-Returns :
      (fuel : ℕ) (n : Node) (k : Key)
      → Readable read n
      → length k < fuel
      → Returns read (delete_from read fuel n k)
  unfolding delete_from descend
  delete_from-Returns zero n k r h = absurd (omega arith)
  delete_from-Returns (suc fuel) (node p children old) k r h = elim (standing p k) [
    | exact r₁ r₂ s ↦ rw (r₁, r₂) (_, refl)
    | below a u r₁ r₂ s ↦
        let shorter = strip-length p k a u s in
        rw (r₁, r₂)
          (then-Returns _ (λ child. node p (update a child children) old)
            (on_child-Returns read (λ n. as_child read (delete_from read fuel n u)) absent
              (children a) (children-Readable read p children old r a)
              (λ n below.
                then-Returns (delete_from read fuel n u) of_node
                  (delete_from-Returns fuel n u below (omega arith)))))
    | apart x xs r₁ s ↦ rw r₁ (_, refl)
  ]

  -- Where every node that is referred to by a hash from the node, directly or from a node below it,
  -- can be read, set returns, and then get finds the new content under its key, and under every
  -- other key what it found before.
  pub get-set :
      (n : Node) (k j : Key) (content : Content)
      → Readable read n
      → (n' : Node) × (set read n k content ≡ ok n')
        × (get read n' j ≡ (if equals k j then ok (some content) else get read n j))
  unfolding set
  get-set n k j content r =
      let (n', e) = set_from-Returns (2 + length k) n k content r (omega arith) in
      (n', e, set_from-get read (2 + length k) n k content n' e j)

  -- Where every node that is referred to by a hash from the node, directly or from a node below it,
  -- can be read, delete returns, and then get finds nothing under its key, and under every other
  -- key what it found before.
  pub get-delete :
      (n : Node) (k j : Key)
      → Readable read n
      → (n' : Node) × (delete read n k ≡ ok n')
        × (get read n' j ≡ (if equals k j then ok none else get read n j))
  unfolding delete
  get-delete n k j r =
      let (n', e) = delete_from-Returns (suc (length k)) n k r (omega arith) in
      (n', e, delete_from-get read (suc (length k)) n k n' e j)
