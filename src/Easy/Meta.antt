-- ===== src/Easy/Meta.antt =====
-- packages/easy-framework/src/state.ts: MetaState. `meta` is the store under the prefix 'meta:'.
use uniqys_kit.Prelude.{
  ℕ, zero, suc, ◌+◌, ◌/◌, ◌%◌, List, [], ◌∷◌, ◌++◌, Option, none, some, if◌then◌else◌, ltb, Result,
  ok, ◌>>=◌,
}
use uniqys_kit.Serialize.Integers.{Serializer, Deserializer}
use uniqys_kit.Serialize.Codec
use uniqys_kit.Serialize.Lists
use uniqys_kit.Serialize.UInt64
use uniqys_kit.Types.FixedBytes
use uniqys_kit.Types.FixedBytes.{Bytes}
use uniqys_kit.Signature.{Hash}
use uniqys_kit.Signature.Keys.{hash_zero, hash_deserialize}
use uniqys_kit.Store.Interface.{Store}
use uniqys_kit.Blockchain.Validators.{ValidatorSet, set_serialize, set_deserialize}

-- The characters of the names of the entries.
abbrev pub height_key : Bytes
height_key = 104 ∷ 101 ∷ 105 ∷ 103 ∷ 104 ∷ 116 ∷ []

-- 'latestBlockTimestamp'
abbrev pub block_timestamp_key : Bytes
block_timestamp_key =
    108 ∷ 97 ∷ 116 ∷ 101 ∷ 115 ∷ 116 ∷ 66 ∷ 108 ∷ 111 ∷ 99 ∷ 107 ∷ 84 ∷ 105 ∷ 109 ∷ 101 ∷ 115 ∷ 116
    ∷ 97 ∷ 109 ∷ 112 ∷ []

-- 'latestEventTimestamp'
abbrev pub event_timestamp_key : Bytes
event_timestamp_key =
    108 ∷ 97 ∷ 116 ∷ 101 ∷ 115 ∷ 116 ∷ 69 ∷ 118 ∷ 101 ∷ 110 ∷ 116 ∷ 84 ∷ 105 ∷ 109 ∷ 101 ∷ 115 ∷ 116
    ∷ 97 ∷ 109 ∷ 112 ∷ []

-- 'eventNonce'
abbrev pub event_nonce_key : Bytes
event_nonce_key = 101 ∷ 118 ∷ 101 ∷ 110 ∷ 116 ∷ 78 ∷ 111 ∷ 110 ∷ 99 ∷ 101 ∷ []

-- 'eventTransactionRoot'
abbrev pub event_root_key : Bytes
event_root_key =
    101 ∷ 118 ∷ 101 ∷ 110 ∷ 116 ∷ 84 ∷ 114 ∷ 97 ∷ 110 ∷ 115 ∷ 97 ∷ 99 ∷ 116 ∷ 105 ∷ 111 ∷ 110 ∷ 82
    ∷ 111 ∷ 111 ∷ 116 ∷ []

-- 'nextValidatorSet'
abbrev pub validator_set_key : Bytes
validator_set_key =
    110 ∷ 101 ∷ 120 ∷ 116 ∷ 86 ∷ 97 ∷ 108 ∷ 105 ∷ 100 ∷ 97 ∷ 116 ∷ 111 ∷ 114 ∷ 83 ∷ 101 ∷ 116 ∷ []

-- A number in decimal, with fuel for its digits.
unfoldable pub decimal_from : ℕ → ℕ → Bytes
decimal_from zero n = []
decimal_from (suc fuel) n =
    let before = decimal_from fuel (n / 10) in
    if ltb n 10 then (48 + n) ∷ [] else before ++ (48 + n % 10) ∷ []

unfoldable pub decimal : ℕ → Bytes
unfolding decimal_from
decimal n = decimal_from (suc n) n

-- 'appRoot:' and the height
unfoldable pub app_root_key : ℕ → Bytes
unfolding decimal
app_root_key height = 97 ∷ 112 ∷ 112 ∷ 82 ∷ 111 ∷ 111 ∷ 116 ∷ 58 ∷ decimal height

-- 'validTransactionHashes:' and the height
unfoldable pub valid_hashes_key : ℕ → Bytes
unfolding decimal
valid_hashes_key height =
    118
    ∷ 97
    ∷ 108
    ∷ 105
    ∷ 100
    ∷ 84
    ∷ 114
    ∷ 97
    ∷ 110
    ∷ 115
    ∷ 97
    ∷ 99
    ∷ 116
    ∷ 105
    ∷ 111
    ∷ 110
    ∷ 72
    ∷ 97
    ∷ 115
    ∷ 104
    ∷ 101
    ∷ 115
    ∷ 58
    ∷ decimal height

abbrev pub hashes_serialize : Serializer (List Hash)
hashes_serialize = Lists.serialize FixedBytes.serialize

abbrev pub hashes_deserialize : Deserializer (List Hash)
hashes_deserialize = Lists.deserialize hash_deserialize

module _ {State : Type 0} (meta : Store State Bytes) where
  -- What an entry gives, or the other value where there is none.
  unfoldable pub value_or {ℓ} : {A : Type ℓ} → Deserializer A → Result A → Option Bytes → Result A
  value_or d other none = other
  value_or d other (some bytes) = Codec.deserialize d bytes

  unfoldable pub entry {ℓ} : {A : Type ℓ} → Deserializer A → Result A → Bytes → State → Result A
  unfolding value_or
  entry d other key s = value_or d other (meta.get key s)

  unfoldable pub put {ℓ} : {A : Type ℓ} → Serializer A → A → Bytes → State → Result State
  put serializer value key s = do
    bytes ← Codec.serialize serializer value
    ok (meta.set key bytes s)

  unfoldable pub get_height : State → Result ℕ
  unfolding entry
  get_height s = entry UInt64.deserialize (ok 0) height_key s

  unfoldable pub increment_height : State → Result State
  unfolding get_height put
  increment_height s = do height ← get_height s; put UInt64.serialize (height + 1) height_key s

  unfoldable pub get_latest_block_timestamp : State → Result ℕ
  unfolding entry
  get_latest_block_timestamp s = entry UInt64.deserialize (ok 0) block_timestamp_key s

  unfoldable pub set_latest_block_timestamp : ℕ → State → Result State
  unfolding put
  set_latest_block_timestamp timestamp s = put UInt64.serialize timestamp block_timestamp_key s

  unfoldable pub get_latest_event_timestamp : State → Result ℕ
  unfolding entry
  get_latest_event_timestamp s = entry UInt64.deserialize (ok 0) event_timestamp_key s

  unfoldable pub set_latest_event_timestamp : ℕ → State → Result State
  unfolding put
  set_latest_event_timestamp timestamp s = put UInt64.serialize timestamp event_timestamp_key s

  unfoldable pub get_event_nonce : State → Result ℕ
  unfolding entry
  get_event_nonce s = entry UInt64.deserialize (ok 0) event_nonce_key s

  unfoldable pub increment_event_nonce : State → Result State
  unfolding get_event_nonce put
  increment_event_nonce s = do
    nonce ← get_event_nonce s
    put UInt64.serialize (nonce + 1) event_nonce_key s

  unfoldable pub set_event_transaction_root : Hash → State → Result State
  unfolding put
  set_event_transaction_root root s = put FixedBytes.serialize root event_root_key s

  unfoldable pub get_next_validator_set : State → Result ValidatorSet
  unfolding entry
  get_next_validator_set s = entry set_deserialize (ok []) validator_set_key s

  unfoldable pub set_next_validator_set : ValidatorSet → State → Result State
  unfolding put
  set_next_validator_set vs s = put set_serialize vs validator_set_key s

  unfoldable pub get_app_root : ℕ → State → Result Hash
  unfolding entry app_root_key
  get_app_root height s = entry hash_deserialize (ok hash_zero) (app_root_key height) s

  unfoldable pub set_app_root : ℕ → Hash → State → Result State
  unfolding put app_root_key
  set_app_root height root s = put FixedBytes.serialize root (app_root_key height) s

  unfoldable pub get_valid_transaction_hashes : ℕ → State → Result (List Hash)
  unfolding entry valid_hashes_key
  get_valid_transaction_hashes height s =
      entry hashes_deserialize (ok []) (valid_hashes_key height) s

  unfoldable pub set_valid_transaction_hashes : ℕ → List Hash → State → Result State
  unfolding put valid_hashes_key
  set_valid_transaction_hashes height hashes s =
      put hashes_serialize hashes (valid_hashes_key height) s
