-- ===== src/Blockchain/Validators.antt =====
-- packages/blockchain/src/consensus.ts: Validator and ValidatorSet
pub mod Shares
use uniqys_kit.Prelude.{
  ℕ, ◌+◌, ◌%◌, ◌^◌, ◌<◌, Bool, Option, none, some, List, [], ◌∷◌, if◌then◌else◌, ◌==◌, length,
  get_elem?, All, Result, ok, err, ◌>>=◌, of_option, type_error, range_error, not_included,
}
use uniqys_kit.Serialize.Integers.{Serializer, Deserializer}
use uniqys_kit.Serialize.Codec
use uniqys_kit.Serialize.Codec.{Fits, Part-then, Part-last}
use uniqys_kit.Serialize.Codec.Numbers.{Fits-uint64}
use uniqys_kit.Serialize.Codec.Collections.{Fits-list}
use uniqys_kit.Serialize.UInt64
use uniqys_kit.Serialize.Lists
use uniqys_kit.Types.FixedBytes
use uniqys_kit.Types.ByteMap
use uniqys_kit.Types.ByteMap.{ByteMap}
use uniqys_kit.Signature.{Hash, Address, Crypto}
use uniqys_kit.Signature.Keys.{from_data, address_deserialize}
use uniqys_kit.Signature.Recovery.{IsAddress, Fits-address}
use uniqys_kit.Blockchain.MerkleTree.{root?}

pub record Validator : Type 0 where
  pub address : Address
  pub power : ℕ

unfoldable pub serialize : Serializer Validator
serialize v w = do w' ← FixedBytes.serialize v.address w; UInt64.serialize v.power w'

unfoldable pub deserialize : Deserializer Validator
deserialize r = do
  (address, r') ← address_deserialize r
  (power, r'') ← UInt64.deserialize r'
  ok (record { address = address; power = power }, r'')

-- A ValidatorSet is its list of validators; what the constructor computes from it is below.
abbrev pub ValidatorSet : Type 0
ValidatorSet = List Validator

-- new Map(validators.map(v => [v.address.toString(), v.power])): a later entry replaces an earlier
unfoldable pub fill_power : ByteMap ℕ → ValidatorSet → ByteMap ℕ
fill_power m [] = m
fill_power m (v ∷ vs) = fill_power (ByteMap.set v.address v.power m) vs

unfoldable pub power_map : ValidatorSet → ByteMap ℕ
unfolding fill_power
power_map vs = fill_power [] vs

unfoldable pub total_power : ValidatorSet → ℕ
total_power [] = 0
total_power (v ∷ vs) = v.power + total_power vs

-- The index is out of range only where there are no validators: reading `.address` of undefined.
unfoldable pub proposer : ValidatorSet → ℕ → ℕ → Result Address
proposer vs height round = do
  v ← of_option type_error (get_elem? vs ((height + round) % length vs))
  ok v.address

unfoldable pub exists : ValidatorSet → Address → Bool
exists vs address = ByteMap.has address (power_map vs)

-- `if (!power) { throw … }`: 0 is taken for a missing entry too.
unfoldable pub power_or_throw : Option ℕ → Result ℕ
power_or_throw none = err not_included
power_or_throw (some power) = if power == 0 then err not_included else ok power

unfoldable pub power_of : ValidatorSet → Address → Result ℕ
power_of vs address = power_or_throw (ByteMap.get address (power_map vs))

unfoldable pub set_serialize : Serializer ValidatorSet
set_serialize = Lists.serialize serialize

unfoldable pub set_deserialize : Deserializer ValidatorSet
set_deserialize = Lists.deserialize deserialize

module _ (c : Crypto) where
  unfoldable pub hash : Validator → Result Hash
  hash v = do bytes ← Codec.serialize serialize v; ok (from_data c bytes)

  unfoldable pub hashes : ValidatorSet → Result (List Hash)
  hashes [] = ok []
  hashes (v ∷ vs) = do h ← hash v; hs ← hashes vs; ok (h ∷ hs)

  unfoldable pub set_hash : ValidatorSet → Result Hash
  set_hash vs = do hs ← hashes vs; of_option range_error (root? (from_data c) hs)

pub record InRange (v : Validator) : Type 0 where
  pub address : IsAddress v.address
  pub power : v.power < 2 ^ 48

pub Fits-validator : (v : Validator) → InRange v → Fits serialize deserialize v
unfolding serialize deserialize
Fits-validator v fits =
    Part-then FixedBytes.serialize address_deserialize _ (Fits-address v.address fits.address) (
      Part-last UInt64.serialize UInt64.deserialize
        (λ power. record { address = v.address; power = power }) (Fits-uint64 v.power fits.power))

AllFit : (vs : ValidatorSet) → All InRange vs → All (Fits serialize deserialize) vs
AllFit [] h = h
AllFit (v ∷ vs) (h, hs) = (Fits-validator v h, AllFit vs hs)

pub Fits-validator_set :
    (vs : ValidatorSet)
    → length vs < 2 ^ 32
    → All InRange vs
    → Fits set_serialize set_deserialize vs
unfolding set_serialize set_deserialize
Fits-validator_set vs few each = Fits-list serialize deserialize vs few (AllFit vs each)
