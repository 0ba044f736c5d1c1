-- ===== src/Blockchain/MerkleTree/Proofs.antt =====
-- packages/blockchain/src/merkle-tree.ts: which proofs `verify` accepts, and what `proof` makes.
use native.Mathlib.Nat.{sub-zero, suc-sub-suc}
use uniqys_kit.Prelude.{
  ℕ, zero, suc, ◌-◌, ◌≡◌, refl, ◌∙◌, ◌⊎◌, true, inl, inr, some, List, [], ◌∷◌, ◌++◌, ok, length,
  get_elem?,
}
use uniqys_kit.Types.FixedBytes.{Bytes, equals_refl}
use uniqys_kit.Signature.{Hash}
use uniqys_kit.Blockchain.MerkleTree.{
  split_point, double_up, add_depth, push_at, pair_hash, root_levels, root?, tree?, fold_proof,
  verify, index_from, proof,
}
use uniqys_kit.Blockchain.MerkleTree.Order.{pair_hash_comm}
use uniqys_kit.Blockchain.MerkleTree.Root.{IsRoot, empty, leaf, fork, root?-IsRoot}

get_elem?-append {ℓ} :
    {A : Type ℓ} (xs ys : List A) (i : ℕ) (a : A)
    → get_elem? (xs ++ ys) i ≡ some a
    → (get_elem? xs i ≡ some a) ⊎ (get_elem? ys (i - length xs) ≡ some a)
get_elem?-append [] ys i a h = inr (rw sub-zero h)
get_elem?-append (x ∷ xs) ys zero a h = inl h
get_elem?-append (x ∷ xs) ys (suc i) a h = elim (get_elem?-append xs ys i a h) [
  | inl l ↦ inl l
  | inr r ↦ inr (rw suc-sub-suc r)
]

module _ (H : Bytes → Hash) where
  fold_proof-snoc :
      (hash : Hash) (proof : List Hash) (p : Hash)
      → fold_proof H hash (proof ++ p ∷ []) ≡ pair_hash H (fold_proof H hash proof) p
  unfolding fold_proof
  fold_proof-snoc hash [] p = refl
  fold_proof-snoc hash (q ∷ proof) p = fold_proof-snoc (pair_hash H hash q) proof p

  -- Every item of a tree has a list of hashes that leads from it to the root.
  pub fold_proof-IsRoot :
      (items : List Hash) (root : Hash) (i : ℕ) (item : Hash)
      → IsRoot H items root
      → get_elem? items i ≡ some item
      → (proof : List Hash) × (fold_proof H item proof ≡ root)
  unfolding fold_proof
  fold_proof-IsRoot [] root i item (empty e) at = cc
  fold_proof-IsRoot (x ∷ []) root zero item (leaf e) at = ([], cc)
  fold_proof-IsRoot (x ∷ []) root (suc i) item (leaf e) at = cc
  fold_proof-IsRoot items root i item
        (fork n front back l r parts size some_back few_back e left right) at =
      elim (get_elem?-append front back i item (rw parts at at)) [
        | inl in_front ↦
            let (proof, leads) = fold_proof-IsRoot front l i item left in_front in
            (proof ++ r ∷ [], fold_proof-snoc item proof r ∙ rw (leads, e) refl)
        | inr in_back ↦
            let (proof, leads) = fold_proof-IsRoot back r (i - length front) item right in_back in
            (proof ++ l ∷ [], fold_proof-snoc item proof l ∙ rw (leads, e) (pair_hash_comm H r l))
      ]

  -- Each item of a list has a proof that verify accepts for the root of the list.
  pub verify-root :
      (items : List Hash) (i : ℕ) (item : Hash)
      → get_elem? items i ≡ some item
      → (root : Hash) × (proof : List Hash) × (root? H items ≡ some root)
        × (verify H proof root item ≡ true)
  unfolding verify
  verify-root items i item h =
      let (root, computed, is_root) = root?-IsRoot H items in
      let (proof, leads) = fold_proof-IsRoot items root i item is_root h in
      (root, proof, computed, rw leads (equals_refl root))

  -- Of any six items, where the sixth occurs first in the sixth place, the proof made for it takes
  -- its own hash for that of its sibling.
  pub proof_of_sixth :
      (a b c d e f : Hash)
      → index_from 0 (a ∷ b ∷ c ∷ d ∷ e ∷ f ∷ []) f ≡ some 5
      → proof H (a ∷ b ∷ c ∷ d ∷ e ∷ f ∷ []) f
        ≡ ok (some f ∷ some (pair_hash H (pair_hash H a b) (pair_hash H c d)) ∷ [])
  unfolding proof tree? root_levels split_point double_up add_depth push_at
  proof_of_sixth a b c d e f h = rw h refl
