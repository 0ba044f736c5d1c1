-- ===== src/Easy/State/Heights.antt =====
-- packages/easy-framework/src/state.ts: newHeight and the state that getAppState tells the chain.
use uniqys_kit.Prelude.{
  ℕ, ◌+◌, ◌^◌, ◌<◌, ◌≡◌, refl, ap, ◌∙◌, List, [], ◌∷◌, Bool, All, length, if◌then◌else◌, ok,
}
use uniqys_kit.Serialize.UInt64
use uniqys_kit.Types.FixedBytes.{Bytes, equals}
use uniqys_kit.Signature.{Hash, Crypto}
use uniqys_kit.Signature.Keys.{hash_zero, hash_deserialize}
use uniqys_kit.Signature.Recovery.{IsHash}
use uniqys_kit.Blockchain.Validators.{ValidatorSet, set_deserialize}
use uniqys_kit.Store.Interface.{Store, StoreLaws}
use uniqys_kit.Easy.Meta.{
  get_height, increment_height, get_app_root, set_app_root, height_key, app_root_key,
  valid_hashes_key, block_timestamp_key, event_timestamp_key, validator_set_key, hashes_deserialize,
  get_valid_transaction_hashes, set_valid_transaction_hashes, set_latest_block_timestamp,
  get_latest_block_timestamp, get_latest_event_timestamp, set_event_transaction_root,
  get_next_validator_set,
}
use uniqys_kit.Easy.State.{
  new_height, get_event_transaction_root, merkle_root, get_app_state, get_merkle_root,
}
use uniqys_kit.Easy.State.Entries.{write-Tail, write-Head}

module _ {State : Type 0} (meta : Store State Bytes) (laws : StoreLaws State Bytes meta) where
  -- What newHeight leaves under each entry.
  new_height-entries :
      (top event_root : Hash) (height time before : ℕ) (hashes : List Hash) (event_exists : Bool)
      (s : State)
      → get_height meta s ≡ ok height
      → get_latest_block_timestamp meta s ≡ ok before
      → height + 1 < 2 ^ 48
      → before < 2 ^ 48
      → time < 2 ^ 48
      → IsHash top
      → IsHash event_root
      → length hashes < 2 ^ 32
      → All IsHash hashes
      → (s' : State) × (new_height meta top time hashes event_exists event_root s ≡ ok s')
        × (get_height meta s' ≡ ok (height + 1))
        × (get_app_root meta (height + 1) s' ≡ ok top)
        × (get_valid_transaction_hashes meta (height + 1) s' ≡ ok hashes)
        × (get_latest_block_timestamp meta s' ≡ ok time)
        × (get_latest_event_timestamp meta s'
            ≡ (if event_exists then ok before else get_latest_event_timestamp meta s))
        × (get_next_validator_set meta s' ≡ get_next_validator_set meta s)
        × ((c : Crypto) → get_event_transaction_root meta c s' ≡ ok event_root)
  unfolding new_height increment_height get_height get_app_root set_app_root
      get_valid_transaction_hashes set_valid_transaction_hashes set_latest_block_timestamp
      get_latest_block_timestamp get_latest_event_timestamp set_event_transaction_root
      get_next_validator_set get_event_transaction_root equals app_root_key valid_hashes_key
  new_height-entries top event_root height time before hashes event_exists s known at_before small
        small_before small_time fits_top fits_root few fits_hashes =
      let n = height + 1 in
      let number = UInt64.deserialize in
      let h = write-Head meta laws top height hashes s known small fits_top few fits_hashes in
      let kept : get_latest_block_timestamp meta h.after ≡ ok before =
        h.others number (ok 0) block_timestamp_key refl refl refl ∙ at_before in
      let kept_event : get_latest_event_timestamp meta h.after ≡ get_latest_event_timestamp meta s =
        h.others number (ok 0) event_timestamp_key refl refl refl in
      let t =
        write-Tail meta laws event_root time before event_exists h.after kept small_before
          small_time fits_root in
      (
        t.after,
        h.runs _ ∙ t.runs,
        t.others number (ok 0) height_key refl refl refl ∙ h.height_found,
        t.others hash_deserialize (ok hash_zero) (app_root_key n) refl refl refl ∙ h.root_found,
        t.others hashes_deserialize (ok []) (valid_hashes_key n) refl refl refl ∙ h.hashes_found,
        t.block_time,
        t.event_time ∙ ap (λ r. if event_exists then ok before else r) kept_event,
        t.others set_deserialize (ok []) validator_set_key refl refl refl
            ∙ h.others set_deserialize (ok []) validator_set_key refl refl refl,
        λ c. t.root_found (merkle_root c []),
      )

  -- With a store that keeps the laws, where the height, the time of the latest block, the validator
  -- set and the Merkle root of the trie's root and the valid transactions are known, and numbers,
  -- hashes and the list of hashes fit the format: newHeight returns, and then getAppState tells the
  -- next height, that Merkle root, the same validator set and the new root of the events; the time
  -- of the latest block is the new one, and that of the latest event is the time of the block
  -- before if there was an event, else what it was.
  pub get_app_state-new_height :
      (c : Crypto) (top event_root app_hash : Hash) (height time before : ℕ) (hashes : List Hash)
      (event_exists : Bool) (vs : ValidatorSet) (s : State)
      → get_height meta s ≡ ok height
      → get_latest_block_timestamp meta s ≡ ok before
      → get_next_validator_set meta s ≡ ok vs
      → merkle_root c (top ∷ hashes) ≡ ok app_hash
      → height + 1 < 2 ^ 48
      → before < 2 ^ 48
      → time < 2 ^ 48
      → IsHash top
      → IsHash event_root
      → length hashes < 2 ^ 32
      → All IsHash hashes
      → (s' : State) × (new_height meta top time hashes event_exists event_root s ≡ ok s')
        × (get_app_state meta c s'
            ≡ ok (record {
              height = height + 1;
              hash = app_hash;
              next_validator_set = vs;
              event_transaction_root = event_root;
            }))
        × (get_latest_block_timestamp meta s' ≡ ok time)
        × (get_latest_event_timestamp meta s'
            ≡ (if event_exists then ok before else get_latest_event_timestamp meta s))
  unfolding get_app_state get_merkle_root
  get_app_state-new_height c top event_root app_hash height time before hashes event_exists vs s
        known at_before validators root small small_before small_time fits_top fits_root few
        fits_hashes =
      let (s', e, at_height, at_app, at_hashes, at_time, at_event, same, at_root) =
        new_height-entries top event_root height time before hashes event_exists s known at_before
          small small_before small_time fits_top fits_root few fits_hashes in
      (
        s',
        e,
        rw (at_height, at_hashes, at_app, root, same ∙ validators, at_root c) refl,
        at_time,
        at_event,
      )
