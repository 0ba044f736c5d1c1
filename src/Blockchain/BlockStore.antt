-- ===== src/Blockchain/BlockStore.antt =====
-- packages/blockchain/src/block-store.ts. The lock is Lock.ReadWrite: each use of it is one step.
pub mod Keys
pub mod Lookup
use uniqys_kit.Prelude.{
  ℕ, zero, suc, Bool, Option, none, some, List, [], ◌∷◌, Result, ok, err, ◌>>=◌, not_found,
  of_option,
}
use uniqys_kit.Serialize.Buffer.{BufferWriter, ensure, write_through}
use uniqys_kit.Serialize.Integers.{Serializer, Deserializer}
use uniqys_kit.Serialize.Codec
use uniqys_kit.Serialize.UInt64
use uniqys_kit.Types.FixedBytes
use uniqys_kit.Types.FixedBytes.{Bytes}
use uniqys_kit.Signature.{Hash, Crypto}
use uniqys_kit.Store.Interface.{Store}
use uniqys_kit.Blockchain.Validators.{ValidatorSet, set_serialize, set_deserialize, set_hash}
use uniqys_kit.Blockchain.Votes.{Consensus, consensus_serialize, consensus_deserialize}
use uniqys_kit.Blockchain.Blocks.{
  BlockHeader, BlockBody, header_serialize, header_deserialize, body_serialize, body_deserialize,
}

-- The characters of 'height' and of 'consensus', and the first ones of the prefixes.
abbrev pub height_key : Bytes
height_key = 104 ∷ 101 ∷ 105 ∷ 103 ∷ 104 ∷ 116 ∷ []

abbrev pub consensus_key : Bytes
consensus_key = 99 ∷ 111 ∷ 110 ∷ 115 ∷ 101 ∷ 110 ∷ 115 ∷ 117 ∷ 115 ∷ []

abbrev pub header_prefix : ℕ
header_prefix = 104

abbrev pub body_prefix : ℕ
body_prefix = 98

abbrev pub set_prefix : ℕ
set_prefix = 118

-- `w.ensure(1).write(PREFIX, 0, 1)`: only the first character is written.
unfoldable pub write_prefix : Serializer ℕ
write_prefix first w = let (slice, w') = ensure 1 w in ok (write_through slice 0 (first ∷ []) w')

unfoldable pub header_key : ℕ → Result Bytes
header_key =
    Codec.serialize (λ height w. do w' ← write_prefix header_prefix w; UInt64.serialize height w')

unfoldable pub body_key : ℕ → Result Bytes
body_key =
    Codec.serialize (λ height w. do w' ← write_prefix body_prefix w; UInt64.serialize height w')

unfoldable pub validator_set_key : Hash → Result Bytes
validator_set_key =
    Codec.serialize (λ root w. do w' ← write_prefix set_prefix w; FixedBytes.serialize root w')

pub record BlockStore (State : Type 0) : Type 0 where
  pub store : State
  pub cached : Option ℕ

module _ {State : Type 0} (store : Store State Bytes) where
  unfoldable pub new_block_store : State → BlockStore State
  new_block_store s = record { store = s; cached = none }

  -- The value of an entry that has to be there.
  unfoldable pub entry {ℓ} : {A : Type ℓ} → Deserializer A → Bytes → BlockStore State → Result A
  entry d key s = do value ← of_option not_found (store.get key s.store); Codec.deserialize d value

  unfoldable pub stored_height : Option Bytes → Result ℕ
  stored_height none = ok 0
  stored_height (some value) = Codec.deserialize UInt64.deserialize value

  -- A cached 0 is false, so that the store is read.
  unfoldable pub height_from : Option ℕ → Option Bytes → Result ℕ
  unfolding stored_height
  height_from none value = stored_height value
  height_from (some zero) value = stored_height value
  height_from (some (suc n)) value = ok (suc n)

  unfoldable pub get_height : BlockStore State → Result ℕ
  unfolding height_from
  get_height s = height_from s.cached (store.get height_key s.store)

  unfoldable pub get_last_consensus : BlockStore State → Result Consensus
  unfolding entry
  get_last_consensus s = entry consensus_deserialize consensus_key s

  unfoldable pub get_header : ℕ → BlockStore State → Result BlockHeader
  unfolding entry
  get_header height s = do key ← header_key height; entry header_deserialize key s

  unfoldable pub get_body : ℕ → BlockStore State → Result BlockBody
  unfolding entry
  get_body height s = do key ← body_key height; entry body_deserialize key s

  unfoldable pub get_validator_set : Hash → BlockStore State → Result ValidatorSet
  unfolding entry
  get_validator_set root s = do key ← validator_set_key root; entry set_deserialize key s

  -- `store.set(key, serialize(value))`
  unfoldable pub put {ℓ} :
      {A : Type ℓ} → Serializer A → A → Bytes → BlockStore State → Result (BlockStore State)
  put serializer value key s = do
    bytes ← Codec.serialize serializer value
    ok (record s { store = store.set key bytes s.store })

  unfoldable pub set_height : ℕ → BlockStore State → Result (BlockStore State)
  unfolding put
  set_height height s = do
    s' ← put UInt64.serialize height height_key s
    ok (record s' { cached = some height })

  unfoldable pub set_last_consensus : Consensus → BlockStore State → Result (BlockStore State)
  unfolding put
  set_last_consensus consensus s = put consensus_serialize consensus consensus_key s

  unfoldable pub set_header : ℕ → BlockHeader → BlockStore State → Result (BlockStore State)
  unfolding put
  set_header height header s = do key ← header_key height; put header_serialize header key s

  unfoldable pub set_body : ℕ → BlockBody → BlockStore State → Result (BlockStore State)
  unfolding put
  set_body height body s = do key ← body_key height; put body_serialize body key s

  unfoldable pub set_validator_set :
      Crypto → ValidatorSet → BlockStore State → Result (BlockStore State)
  unfolding put
  set_validator_set c vs s = do
    root ← set_hash c vs
    key ← validator_set_key root
    put set_serialize vs key s
