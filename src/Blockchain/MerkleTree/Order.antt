-- ===== src/Blockchain/MerkleTree/Order.antt =====
-- packages/blockchain/src/merkle-tree.ts: sorting the two buffers makes their order irrelevant.
use uniqys_kit.Prelude.{◌≡◌, refl, ap, true, inl, inr, [], ◌∷◌, arith, ◌⊎◌}
use uniqys_kit.Types.FixedBytes.{Bytes}
use uniqys_kit.Signature.{Hash}
use uniqys_kit.Blockchain.MerkleTree.{bytes_le, concat_sorted, pair_hash}

bytes_le_total : (xs ys : Bytes) → (bytes_le xs ys ≡ true) ⊎ (bytes_le ys xs ≡ true)
unfolding bytes_le
bytes_le_total [] ys = inl refl
bytes_le_total (x ∷ xs) [] = inr refl
bytes_le_total (x ∷ xs) (y ∷ ys) = ground (arith, bytes_le_total xs ys)

bytes_le_antisymm : (xs ys : Bytes) → bytes_le xs ys ≡ true → bytes_le ys xs ≡ true → xs ≡ ys
unfolding bytes_le
bytes_le_antisymm [] [] h k = refl
bytes_le_antisymm [] (y ∷ ys) h k = cc
bytes_le_antisymm (x ∷ xs) [] h k = cc
bytes_le_antisymm (x ∷ xs) (y ∷ ys) h k = ground (arith, bytes_le_antisymm xs ys)

pub concat_sorted_comm : (a b : Bytes) → concat_sorted a b ≡ concat_sorted b a
unfolding concat_sorted
concat_sorted_comm a b = ground (arith, bytes_le_total a b, bytes_le_antisymm a b)

pub pair_hash_comm : (H : Bytes → Hash) (a b : Hash) → pair_hash H a b ≡ pair_hash H b a
unfolding pair_hash
pair_hash_comm H a b = ap H (concat_sorted_comm a b)
