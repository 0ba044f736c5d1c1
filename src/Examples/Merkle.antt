-- ===== src/Examples/Merkle.antt =====
-- Merkle trees of a few items.
use uniqys_kit.Prelude.{◌≡◌, refl, true, some, List, [], ◌∷◌}
use uniqys_kit.Types.FixedBytes.{Bytes, equals}
use uniqys_kit.Signature.{Hash}
use uniqys_kit.Blockchain.MerkleTree.{
  bytes_le, concat_sorted, pair_hash, root?, root_levels, split_point, double_up, index_from,
  verify,
}
use uniqys_kit.Blockchain.MerkleTree.Root.{IsRoot, root?-IsRoot}
use uniqys_kit.Blockchain.MerkleTree.Proofs.{verify-root}

-- Short names in place of digests: a tree's hash is the list of its items.
abbrev join : Bytes → Hash
join text = text

abbrev six : List Hash
six = (1 ∷ []) ∷ (2 ∷ []) ∷ (3 ∷ []) ∷ (4 ∷ []) ∷ (5 ∷ []) ∷ (6 ∷ []) ∷ []

root_of_six : root? join six ≡ some (1 ∷ 2 ∷ 3 ∷ 4 ∷ 5 ∷ 6 ∷ [])
unfolding root? root_levels split_point double_up pair_hash concat_sorted bytes_le
root_of_six = refl

sixth_found : index_from 0 six (6 ∷ []) ≡ some 5
unfolding index_from equals
sixth_found = refl

root?-IsRoot_example : (h : Hash) × (root? join six ≡ some h) × IsRoot join six h
root?-IsRoot_example = root?-IsRoot join six

verify-root_example :
    (root : Hash) × (path : List Hash) × (root? join six ≡ some root)
    × (verify join path root (6 ∷ []) ≡ true)
verify-root_example = verify-root join six 5 (6 ∷ []) refl
