-- ===== src/Trie/Normal/Total.antt =====
-- packages/merkle-patricia-trie/src/merkle-patricia-trie/node.ts: where the store has every node that
-- is referred to, normalize returns.
use uniqys_kit.Prelude.{
  ℕ, zero, suc, ◌<◌, ◌≡◌, refl, subst, List, [], ◌∷◌, All, Option, none, some, Result, ok, ◌==◌,
  Bool-cases, inl, inr,
}
use uniqys_kit.Signature.{Hash}
use uniqys_kit.Trie.Keys.{Key}
use uniqys_kit.Trie.Node.{
  Content, Node, node, Child, absent, of_hash, of_node, Branch, empty_branch, update, on_child, get,
}
use uniqys_kit.Trie.Node.Readable.{
  Readable, readable, ReadableChild, no_child, in_place, stored_child,
}
use uniqys_kit.Trie.Normal.{
  existing, collect, as_reference, behind, contract, normalize, normalize_child,
}
use uniqys_kit.Trie.Normal.Lookup.{existing-single, get_root, normalize-get}

module _ (read : Hash → Result Node) where
  -- It returns children that can be read.
  abbrev ReturnsChild : Result Child → Type 0
  ReturnsChild result = (child : Child) × (result ≡ ok child) × ReadableChild read child

  collect-Returns :
      (n : ℕ) (visit : ℕ → Result Child)
      → ((i : ℕ) → ReturnsChild (visit i))
      → (children : Branch) × (collect n visit ≡ ok children)
        × ((i : ℕ) → ReadableChild read (children i))
  unfolding collect update empty_branch
  collect-Returns zero visit each = (_, refl, λ i. no_child)
  collect-Returns (suc n) visit each =
      let (before, e, found) = collect-Returns n visit each in
      let (child, e', found') = each n in
      (
        update n child before,
        rw (e, e') refl,
        λ i. elim (Bool-cases (i == n)) [
          | inl last ↦ rw last found'
          | inr other ↦ rw other (found i)
        ],
      )

  -- The only child in the place of its parent.
  only-Returns :
      (p : Key) (index : ℕ) (ref : Child)
      → ReadableChild read ref
      → (r : Option Node) × (on_child read (λ n. ok (some (behind p index n))) (ok none) ref ≡ ok r)
        × ReadableChild read (as_reference r)
  unfolding on_child as_reference behind
  only-Returns p index absent no_child = (_, refl, no_child)
  only-Returns p index (of_node (node q below content)) (in_place (readable each)) =
      (_, refl, in_place (readable each))
  only-Returns p index (of_hash h) (stored_child {n = node q below content} e (readable each)) =
      (some (behind p index (node q below content)), rw e refl, in_place (readable each))

  contract-Returns :
      (p : Key) (children : Branch) (content : Option Content) (refs : List (ℕ × Child))
      → existing 16 children ≡ refs
      → ((i : ℕ) → ReadableChild read (children i))
      → (r : Option Node) × (contract read p children content refs ≡ ok r)
        × ReadableChild read (as_reference r)
  unfolding contract as_reference
  contract-Returns p children (some content) refs there found = (_, refl, in_place (readable found))
  contract-Returns p children none [] there found = (_, refl, no_child)
  contract-Returns p children none ((index, ref) ∷ []) there found =
      let (is, gone) = existing-single 16 children index ref there in
      only-Returns p index ref (subst (ReadableChild read) is (found index))
  contract-Returns p children none (first ∷ second ∷ refs) there found =
      (_, refl, in_place (readable found))

  mutual
    unfolding normalize

    normalize-Returns :
        (n : Node)
        → Readable read n
        → (r : Option Node) × (normalize read n ≡ ok r) × ReadableChild read (as_reference r)
    normalize-Returns (node p children content) (readable each) =
        let (normalized, e, found) =
          collect-Returns 16 (λ i. normalize_child read (children i))
            (λ i. normalize_child-Returns (children i) (each i)) in
        rw e (contract-Returns p normalized content (existing 16 normalized) refl found)

    normalize_child-Returns :
        (child : Child) → ReadableChild read child → ReturnsChild (normalize_child read child)
    normalize_child-Returns absent found = (_, refl, no_child)
    normalize_child-Returns (of_hash h) found = (_, refl, found)
    normalize_child-Returns (of_node n) (in_place r) =
        let (normalized, e, found) = normalize-Returns n r in rw e (_, refl, found)

  -- Where every node that is referred to by a hash from the node, directly or from a node below it,
  -- can be read, normalize returns, and what get finds from its result under a key of alphabets
  -- below 16 is what it finds from the node; from no node it finds nothing.
  pub get-normalize :
      (n : Node) (k : Key)
      → Readable read n
      → All (λ a. a < 16) k
      → (r : Option Node) × (normalize read n ≡ ok r) × (get_root read k r ≡ get read n k)
  get-normalize n k found small =
      let (r, e, still) = normalize-Returns n found in (r, e, normalize-get read n r e k small)
