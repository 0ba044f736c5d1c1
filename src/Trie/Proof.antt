-- ===== src/Trie/Proof.antt =====
-- packages/merkle-patricia-trie/src/merkle-proof.ts: a proof is the list of its operations, which a
-- machine with a stack of bytes carries out.
pub mod Optimize
use uniqys_kit.Prelude.{
  ℕ, zero, suc, ◌+◌, ◌-◌, Bool, List, [], ◌∷◌, ◌++◌, Option, none, some, if◌then◌else◌, leb, length,
  take, drop, Result, ok, ◌>>=◌,
}
use uniqys_kit.Prelude.Int.{ℤ, pos, negsuc}
use uniqys_kit.Serialize.Codec.{serialize}
use uniqys_kit.Serialize.Int64
use uniqys_kit.Types.FixedBytes.{Bytes, equals}
use uniqys_kit.Signature.{Crypto, Hash}
use uniqys_kit.Signature.Keys.{from_data}

pub data Operation : Type 0 where
  load_operation : Bytes → Operation
  value_operation : Bytes → Operation
  hash_operation : ℕ → Operation

abbrev pub MerkleProof : Type 0
MerkleProof = List Operation

abbrev pub negative : ℕ → ℤ
negative zero = pos 0
negative (suc n) = negsuc n

unfoldable pub operation_to_binary : Operation → Result Bytes
operation_to_binary (load_operation bytes) = do
  size ← serialize Int64.serialize (pos (length bytes))
  ok (size ++ bytes)
operation_to_binary (value_operation bytes) = do
  size ← serialize Int64.serialize (pos (length bytes))
  ok (size ++ bytes)
operation_to_binary (hash_operation consume) = serialize Int64.serialize (negative consume)

pub record ProofBinary : Type 0 where
  pub raw : Bytes
  pub value_offsets : List ℕ

-- The offset of a value is that of its size.
unfoldable pub offset_of : ℕ → Operation → List ℕ
offset_of at (load_operation bytes) = []
offset_of at (value_operation bytes) = at ∷ []
offset_of at (hash_operation consume) = []

-- The loop of toBinary; `at` is the length so far.
unfoldable pub to_binary_from : ℕ → MerkleProof → Result ProofBinary
unfolding offset_of
to_binary_from at [] = ok (record { raw = []; value_offsets = [] })
to_binary_from at (op ∷ ops) = do
  bin ← operation_to_binary op
  rest ← to_binary_from (at + length bin) ops
  ok (record { raw = bin ++ rest.raw; value_offsets = offset_of at op ++ rest.value_offsets })

unfoldable pub to_binary : MerkleProof → Result ProofBinary
unfolding to_binary_from
to_binary proof = to_binary_from 0 proof

unfoldable pub load : Bytes → MerkleProof → MerkleProof
load bytes proof = proof ++ load_operation bytes ∷ []

unfoldable pub value : Bytes → MerkleProof → MerkleProof
value bytes proof = proof ++ value_operation bytes ∷ []

unfoldable pub append : MerkleProof → MerkleProof → MerkleProof
append tail proof = proof ++ tail

-- The size after an operation. A Hash consumes no more than there is.
unfoldable pub size_after : Operation → ℕ → ℕ
size_after (load_operation bytes) size = size + length bytes
size_after (value_operation bytes) size = size + length bytes
size_after (hash_operation consume) size = size + 32 - consume

unfoldable pub size_from : MerkleProof → ℕ → ℕ
unfolding size_after
size_from [] size = size
size_from (op ∷ ops) size = size_from ops (size_after op size)

unfoldable pub result_size : MerkleProof → ℕ
unfolding size_from
result_size proof = size_from proof 0

unfoldable pub hash : MerkleProof → MerkleProof
unfolding result_size
hash proof = proof ++ hash_operation (result_size proof) ∷ []

unfoldable pub values : MerkleProof → List Bytes
values [] = []
values (load_operation bytes ∷ ops) = values ops
values (value_operation bytes ∷ ops) = bytes ∷ values ops
values (hash_operation consume ∷ ops) = values ops

-- One turn of the loop of optimize: what becomes of `top`, and of the operations before it.
unfoldable pub squash : Option Operation → MerkleProof → Operation → Option Operation × MerkleProof
squash none ops op = (some op, ops)
squash (some (load_operation first)) ops (load_operation second) =
    (some (load_operation (first ++ second)), ops)
squash (some top) ops op = (some op, ops ++ top ∷ [])

unfoldable pub squash_all : MerkleProof → Option Operation → MerkleProof → MerkleProof
unfolding squash
squash_all [] none ops = ops
squash_all [] (some top) ops = ops ++ top ∷ []
squash_all (op ∷ rest) top ops = squash_all rest (squash top ops op).0 (squash top ops op).1

unfoldable pub optimize : MerkleProof → MerkleProof
unfolding squash_all
optimize proof = squash_all proof none []

-- Where `slice(start)` starts in a buffer of the size, with start = size - consume; a start
-- below zero counts from the end.
unfoldable pub start_of : ℕ → ℕ → ℕ
start_of size consume = if leb consume size then size - consume else size - (consume - size)

module _ (c : Crypto) where
  unfoldable pub operate : Operation → Bytes → Bytes
  unfolding from_data start_of
  operate (load_operation bytes) stack = stack ++ bytes
  operate (value_operation bytes) stack = stack ++ bytes
  operate (hash_operation consume) stack =
      let start = start_of (length stack) consume in
      take start stack ++ from_data c (drop start stack)

  unfoldable pub calculate_from : MerkleProof → Bytes → Bytes
  unfolding operate
  calculate_from [] stack = stack
  calculate_from (op ∷ ops) stack = calculate_from ops (operate op stack)

  unfoldable pub calculate : MerkleProof → Bytes
  unfolding calculate_from
  calculate proof = calculate_from proof []

  unfoldable pub verify : Hash → MerkleProof → Bool
  unfolding calculate
  verify expect proof = equals (calculate proof) expect
