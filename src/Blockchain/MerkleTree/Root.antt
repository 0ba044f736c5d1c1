-- ===== src/Blockchain/MerkleTree/Root.antt =====
-- packages/blockchain/src/merkle-tree.ts: `root` against the tree that its comments describe.
use native.Mathlib.Nat.{one-le-pow}
use uniqys_kit.Prelude.{
  ℕ, zero, suc, ◌+◌, ◌^◌, ◌≤◌, ◌<◌, ◌≡◌, refl, sym, ◌∙◌, Option, some, List, [], ◌∷◌, ◌++◌, arith,
  length, take, drop, length-take, length-drop, take-drop,
}
use uniqys_kit.Types.FixedBytes.{Bytes}
use uniqys_kit.Signature.{Hash}
use uniqys_kit.Blockchain.MerkleTree.{
  split_point, add_depth, push_at, pair_hash, root_levels, root?,
}
use uniqys_kit.Blockchain.MerkleTree.Split.{split_point_lem}

module _ (H : Bytes → Hash) where
  -- The root of no items hashes nothing, one item is its own root, and more items are split before
  -- the largest power of two below their number.
  pub data IsRoot : List Hash → Hash → Type 0 where
    empty : {h : Hash} → h ≡ H [] → IsRoot [] h
    leaf : {item h : Hash} → h ≡ item → IsRoot (item ∷ []) h
    fork :
        {items : List Hash} {h : Hash} (n : ℕ) (front back : List Hash) (l r : Hash)
        → items ≡ front ++ back
        → length front ≡ 2 ^ n
        → 1 ≤ length back
        → length back ≤ 2 ^ n
        → h ≡ pair_hash H l r
        → IsRoot front l
        → IsRoot back r
        → IsRoot items h

  abbrev Computes : List Hash → Option (Hash × List (List Hash)) → Type 0
  Computes items result =
      (h : Hash) × (levels : List (List Hash)) × (result ≡ some (h, levels)) × IsRoot items h

  -- With fuel above the number of items the recursion ends, at any depth, in that root.
  pub root_levels-IsRoot :
      (fuel : ℕ) (items : List Hash) (depth : ℕ) (tree : List (List Hash))
      → length items < fuel
      → Computes items (root_levels H fuel items depth tree)
  unfolding root_levels
  root_levels-IsRoot zero items depth tree h = absurd (omega arith)
  root_levels-IsRoot (suc fuel) [] depth tree h = (H [], _, refl, empty refl)
  root_levels-IsRoot (suc fuel) (item ∷ []) depth tree h = (item, _, refl, leaf refl)
  root_levels-IsRoot (suc fuel) (a ∷ b ∷ more) depth tree h =
      let items : List Hash = a ∷ b ∷ more in
      let (n, split, low, high) = split_point_lem (length items) (omega arith) in
      let front = take (split_point (length items)) items in
      let back = drop (split_point (length items)) items in
      let size : length front ≡ split_point (length items) =
        length-take (split_point (length items)) items (omega (arith, split, low)) in
      let rest = length-drop (split_point (length items)) items in
      let (l, tree₁, e₁, left) =
        root_levels-IsRoot fuel front (depth + 1) (add_depth depth tree)
          (omega (arith, size, split, low, h)) in
      let (r, tree₂, e₂, right) =
        root_levels-IsRoot fuel back (depth + 1) tree₁
          (omega (arith, rest, split, one-le-pow n 2, h)) in
      (
        pair_hash H l r,
        push_at depth (pair_hash H l r) tree₂,
        rw (e₁, e₂) refl,
        fork n front back l r (sym (take-drop (split_point (length items)) items)) (size ∙ split)
            (omega (arith, rest, split, low)) (omega (arith, rest, split, high)) refl left right,
      )

  -- The root of every list of hashes is computed, and it is the root of the tree that splits a list
  -- before the largest power of two below its length.
  pub root?-IsRoot : (items : List Hash) → (h : Hash) × (root? H items ≡ some h) × IsRoot items h
  unfolding root?
  root?-IsRoot items =
      let (h, levels, e, is_root) =
        root_levels-IsRoot (length items + 1) items 0 [] (omega arith) in
      (h, rw (e, root?) refl, is_root)
