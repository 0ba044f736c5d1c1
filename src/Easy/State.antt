-- ===== src/Easy/State.antt =====
-- packages/easy-framework/src/state.ts: the part of State that stands on MetaState. The root of the trie
-- of the application is an argument.
pub mod Entries
pub mod Heights
use uniqys_kit.Prelude.{
  ℕ, zero, suc, ◌+◌, ◌/◌, ◌%◌, List, [], ◌∷◌, ◌++◌, Option, none, some, Bool, if◌then◌else◌, ltb,
  ◌==◌, Result, ok, ◌>>=◌, of_option, range_error,
}
use uniqys_kit.Serialize.Integers.{Serializer, Deserializer}
use uniqys_kit.Serialize.Codec
use uniqys_kit.Serialize.Lists
use uniqys_kit.Serialize.UInt64
use uniqys_kit.Types.FixedBytes
use uniqys_kit.Types.FixedBytes.{Bytes}
use uniqys_kit.Signature.{Hash, Crypto}
use uniqys_kit.Signature.Keys.{hash_zero, hash_deserialize, from_data}
use uniqys_kit.Store.Interface.{Store}
use uniqys_kit.Blockchain.MerkleTree
use uniqys_kit.Blockchain.MerkleTree.{root?}
use uniqys_kit.Blockchain.Validators.{ValidatorSet, set_serialize, set_deserialize}
use uniqys_kit.Easy.Meta.{
  value_or, entry, put, get_height, increment_height, get_latest_block_timestamp,
  set_latest_block_timestamp, get_latest_event_timestamp, set_latest_event_timestamp,
  get_event_nonce, increment_event_nonce, set_event_transaction_root, get_next_validator_set,
  set_next_validator_set, get_app_root, set_app_root, get_valid_transaction_hashes,
  set_valid_transaction_hashes, height_key, block_timestamp_key, event_timestamp_key,
  event_nonce_key, event_root_key, validator_set_key, decimal, app_root_key, valid_hashes_key,
  hashes_serialize, hashes_deserialize,
}

-- dapp-interface: AppState
pub record AppState : Type 0 where
  pub height : ℕ
  pub hash : Hash
  pub next_validator_set : ValidatorSet
  pub event_transaction_root : Hash

-- MerkleTree.root
abbrev pub merkle_root : Crypto → List Hash → Result Hash
merkle_root c items = of_option range_error (root? (from_data c) items)

module _ {State : Type 0} (meta : Store State Bytes) where
  -- `if (eventExists)`: the time of the block before.
  unfoldable pub note_event : Bool → State → Result State
  unfolding get_latest_block_timestamp set_latest_event_timestamp
  note_event exists s =
      let noted : Result State = (do
        timestamp ← get_latest_block_timestamp meta s
        set_latest_event_timestamp meta timestamp s) in
      if exists then noted else ok s

  -- `top` is the root of the trie.
  unfoldable pub new_height : Hash → ℕ → List Hash → Bool → Hash → State → Result State
  unfolding increment_height get_height set_app_root set_valid_transaction_hashes note_event
      set_latest_block_timestamp set_event_transaction_root
  new_height top timestamp hashes event_exists event_root s = do
    s₁ ← increment_height meta s
    height ← get_height meta s₁
    s₂ ← set_app_root meta height top s₁
    s₃ ← set_valid_transaction_hashes meta height hashes s₂
    s₄ ← note_event event_exists s₃
    s₅ ← set_latest_block_timestamp meta timestamp s₄
    set_event_transaction_root meta event_root s₅

  module _ (c : Crypto) where
    unfoldable pub get_event_transaction_root : State → Result Hash
    unfolding entry
    get_event_transaction_root s = entry meta hash_deserialize (merkle_root c []) event_root_key s

    unfoldable pub get_merkle_root : Hash → List Hash → Result Hash
    get_merkle_root app_root hashes = merkle_root c (app_root ∷ hashes)

    unfoldable pub get_app_state : State → Result AppState
    unfolding get_height get_valid_transaction_hashes get_app_root get_merkle_root
        get_next_validator_set get_event_transaction_root
    get_app_state s = do
      height ← get_height meta s
      hashes ← get_valid_transaction_hashes meta height s
      app_root ← get_app_root meta height s
      hash ← get_merkle_root app_root hashes
      vs ← get_next_validator_set meta s
      event_root ← get_event_transaction_root s
      ok (record {
        height = height;
        hash = hash;
        next_validator_set = vs;
        event_transaction_root = event_root;
      })

    unfoldable pub get_merkle_proof : ℕ → Hash → State → Result (List (Option Hash))
    unfolding get_valid_transaction_hashes get_app_root
    get_merkle_proof height target s = do
      hashes ← get_valid_transaction_hashes meta height s
      app_root ← get_app_root meta height s
      MerkleTree.proof (from_data c) (app_root ∷ hashes) target

  -- A number that is still 0 is set.
  unfoldable pub set_if_zero :
      (State → Result ℕ) → (ℕ → State → Result State) → ℕ → State → Result State
  set_if_zero get set value s = do
    old ← get s
    let written : Result State = set value s
    if old == 0 then written else ok s

  abbrev pub set_if_empty : ValidatorSet → ValidatorSet → State → Result State
  set_if_empty initial [] s = set_next_validator_set meta initial s
  set_if_empty initial (v ∷ vs) s = ok s

  -- `=== Hash.zero` holds for the value that stands for a missing entry alone.
  unfoldable pub set_if_missing : ℕ → Hash → Option Bytes → State → Result State
  unfolding set_app_root
  set_if_missing height top none s = set_app_root meta height top s
  set_if_missing height top (some bytes) s = ok s

  -- ready, after the trie is ready; `time` is that of the genesis block.
  unfoldable pub ready : Hash → ℕ → ValidatorSet → State → Result State
  unfolding set_if_zero get_latest_block_timestamp set_latest_block_timestamp
      get_latest_event_timestamp set_latest_event_timestamp get_next_validator_set get_height
      set_if_missing app_root_key
  ready top time initial s = do
    s₁ ← set_if_zero (get_latest_block_timestamp meta) (set_latest_block_timestamp meta) time s
    s₂ ← set_if_zero (get_latest_event_timestamp meta) (set_latest_event_timestamp meta) time s₁
    vs ← get_next_validator_set meta s₂
    s₃ ← set_if_empty initial vs s₂
    height ← get_height meta s₃
    set_if_missing height top (meta.get (app_root_key height) s₃) s₃
