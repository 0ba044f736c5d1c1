-- ===== src/Blockchain/MerkleTree.antt =====
-- packages/blockchain/src/merkle-tree.ts. The items are given by their hashes; `H` is Hash.fromData.
pub mod Order
pub mod Split
pub mod Root
pub mod Proofs
use uniqys_kit.Prelude.{
  ℕ, zero, suc, ◌+◌, ◌-◌, ◌*◌, ◌/◌, ◌%◌, Bool, true, false, Option, none, some, List, [], ◌∷◌, ◌++◌,
  if◌then◌else◌, ltb, leb, ◌==◌, length, take, drop, get_elem?, reverse, get_or, Result, ok, err,
  target_does_not_exist,
}
use uniqys_kit.Types.FixedBytes.{Bytes, equals}
use uniqys_kit.Signature.{Hash}

-- Buffer.compare(a, b) <= 0
unfoldable pub bytes_le : Bytes → Bytes → Bool
bytes_le [] ys = true
bytes_le (x ∷ xs) [] = false
bytes_le (x ∷ xs) (y ∷ ys) = let rest = bytes_le xs ys in if x == y then rest else ltb x y

-- Buffer.concat([a, b].sort(Buffer.compare))
unfoldable pub concat_sorted : Bytes → Bytes → Bytes
concat_sorted a b = if bytes_le a b then a ++ b else b ++ a

-- `let i = 1; while (i < x) { i <<= 1 }` with fuel
unfoldable pub double_up : ℕ → ℕ → ℕ → ℕ
double_up zero x i = i
double_up (suc fuel) x i = elim (ltb i x) [ true ↦ double_up fuel x (i * 2) | false ↦ i ]

unfoldable pub split_point : ℕ → ℕ
split_point x = double_up x x 1 / 2

-- tree[depth].push(hash)
unfoldable pub push_at : ℕ → Hash → List (List Hash) → List (List Hash)
push_at depth hash [] = []
push_at zero hash (level ∷ tree) = (level ++ hash ∷ []) ∷ tree
push_at (suc depth) hash (level ∷ tree) = level ∷ push_at depth hash tree

-- `if (tree.length === depth) { tree.push([]) }`
unfoldable pub add_depth : ℕ → List (List Hash) → List (List Hash)
add_depth depth tree = if length tree == depth then tree ++ [] ∷ [] else tree

module _ (H : Bytes → Hash) where
  unfoldable pub pair_hash : Hash → Hash → Hash
  pair_hash a b = H (concat_sorted a b)

  -- _root: the hash and the levels; `none` means that the fuel ran out.
  unfoldable pub root_levels :
      ℕ → List Hash → ℕ → List (List Hash) → Option (Hash × List (List Hash))
  root_levels zero items depth tree = none
  root_levels (suc fuel) [] depth tree = some (H [], push_at depth (H []) (add_depth depth tree))
  root_levels (suc fuel) (item ∷ []) depth tree =
      some (item, push_at depth item (add_depth depth tree))
  root_levels (suc fuel) (a ∷ b ∷ more) depth tree =
      let items = a ∷ b ∷ more in
      let split = split_point (length items) in
      elim (root_levels fuel (take split items) (depth + 1) (add_depth depth tree)) [
        | none ↦ none
        | some (l, tree₁) ↦ elim (root_levels fuel (drop split items) (depth + 1) tree₁) [
          | none ↦ none
          | some (r, tree₂) ↦ some (pair_hash l r, push_at depth (pair_hash l r) tree₂)
        ]
      ]

  -- root and tree: each call splits off a part, so the number of items and one is enough fuel.
  unfoldable pub root? : List Hash → Option Hash
  root? items = elim (root_levels (length items + 1) items 0 []) [
    | none ↦ none
    | some (h, _) ↦ some h
  ]

  unfoldable pub tree? : List Hash → Option (List (List Hash))
  tree? items = elim (root_levels (length items + 1) items 0 []) [
    | none ↦ none
    | some (_, t) ↦ some t
  ]

  -- verify: the loop and the test.
  unfoldable pub fold_proof : Hash → List Hash → Hash
  fold_proof hash [] = hash
  fold_proof hash (p ∷ proof) = fold_proof (pair_hash hash p) proof

  unfoldable pub verify : List Hash → Hash → Hash → Bool
  verify proof root target = equals (fold_proof target proof) root

-- The first loop of proof: the index of the first item with the target's hash.
unfoldable pub index_from : ℕ → List Hash → Hash → Option ℕ
index_from i [] target = none
index_from i (item ∷ items) target =
    let later = index_from (i + 1) items target in if equals item target then some i else later

-- tr[d][index + 1] or tr[d][index - 1]; `none` is undefined, and so is an index of -1.
unfoldable pub sibling : List Hash → ℕ → Option Hash
sibling level index =
    if index % 2 == 0 then get_elem? level (index + 1) else get_elem? level (index - 1)

-- The second loop, over the levels from the deepest up to depth 1.
unfoldable pub collect : List (List Hash) → ℕ → List (Option Hash)
unfolding sibling
collect [] index = []
collect (level ∷ levels) index =
    let rest = collect levels (index / 2) in
    if leb (length level) index then rest else sibling level index ∷ rest

unfoldable pub proof_of : List (List Hash) → Option ℕ → Result (List (Option Hash))
unfolding collect
proof_of levels none = err target_does_not_exist
proof_of levels (some index) = ok (collect (reverse (drop 1 levels)) index)

unfoldable pub proof : (Bytes → Hash) → List Hash → Hash → Result (List (Option Hash))
unfolding proof_of index_from
proof H items target = proof_of (get_or (tree? H items) []) (index_from 0 items target)
