-- ===== src/Signature/Keys.antt =====
-- packages/signature/src/address.ts and cryptography.ts: the operations of Hash, Address, Signature
-- and KeyPair.
use uniqys_kit.Prelude.{
  ℕ, ◌+◌, ◌%◌, Option, none, some, ◌++◌, ◌||◌, ◌==◌, Result, ok, err, guard, ◌>>=◌, ◌>>◌,
  type_error, invalid_signature, couldnt_recover, of_option, range_error, length, take, drop,
  replicate, get_elem?,
}
use uniqys_kit.Serialize.Buffer.{consume}
use uniqys_kit.Serialize.Integers.{Deserializer}
use uniqys_kit.Serialize.Codec
use uniqys_kit.Serialize.UInt8
use uniqys_kit.Types.FixedBytes
use uniqys_kit.Types.FixedBytes.{Bytes}
use uniqys_kit.Signature.{Crypto, Hash, Address, Signature}

-- Hash.zero and Address.zero
abbrev pub hash_zero : Hash
hash_zero = replicate 32 0

abbrev pub address_zero : Address
address_zero = replicate 20 0

abbrev pub hash_deserialize : Deserializer Hash
hash_deserialize = FixedBytes.deserialize 32

abbrev pub address_deserialize : Deserializer Address
address_deserialize = FixedBytes.deserialize 20

-- get recovery()
unfoldable pub recovery : Signature → Result ℕ
recovery buffer = of_option range_error (get_elem? buffer 64)

-- new Signature(buffer)
unfoldable pub construct : Bytes → Result Signature
unfolding recovery
construct buffer = do
  guard (length buffer == 65) type_error
  v ← recovery buffer
  guard (v == 27 || v == 28) invalid_signature
  ok buffer

unfoldable pub signature_deserialize : Deserializer Signature
signature_deserialize r = let (bytes, r') = consume 65 r in do b ← construct bytes; ok (b, r')

-- The `try` of recover: whatever is thrown inside is replaced.
unfoldable pub public_key_of : Option Bytes → Result Bytes
public_key_of none = err couldnt_recover
public_key_of (some key) = elim (FixedBytes.construct 64 (drop 1 key)) [
  | ok k ↦ ok k
  | err e ↦ err couldnt_recover
]

module _ (c : Crypto) where
  -- Hash.fromData: the length check of the constructor holds by `length-keccak256`.
  unfoldable pub from_data : Bytes → Hash
  from_data text = c.keccak256 text

  -- Address.fromPublicKey
  unfoldable pub from_public_key : Bytes → Address
  unfolding from_data
  from_public_key key = take 20 (drop 12 (from_data key))

  -- Signature.sign
  unfoldable pub sign : Hash → Bytes → Result Signature
  sign digest key =
      let (signature, flag) = c.sign digest key in
      do v ← Codec.serialize UInt8.serialize (flag + 27); construct (signature ++ v)

  unfoldable pub recover : Hash → Signature → Result Bytes
  recover digest signature = do
    v ← recovery signature
    public_key_of (c.recover digest (take 64 signature) ((v + 1) % 2))

  unfoldable pub address : Hash → Signature → Result Address
  address digest signature = do key ← recover digest signature; ok (from_public_key key)

  -- The public key and the address of new KeyPair(privateKey).
  unfoldable pub key_pair_public_key : Bytes → Result Bytes
  key_pair_public_key key = FixedBytes.construct 64 (drop 1 (c.public_key_create key))

  unfoldable pub key_pair_address : Bytes → Result Address
  key_pair_address key = do public ← key_pair_public_key key; ok (from_public_key public)
