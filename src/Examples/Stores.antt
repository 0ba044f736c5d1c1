-- ===== src/Examples/Stores.antt =====
-- Stores, and what is kept in them.
use uniqys_kit.Prelude.{◌≡◌, refl, true, false, none, [], ◌∷◌, ok, replicate, arith}
use uniqys_kit.Types.FixedBytes.{Bytes}
use uniqys_kit.Types.ByteMap
use uniqys_kit.Types.ByteMap.{ByteMap}
use uniqys_kit.Store.Interface.{Store}
use uniqys_kit.Store.InMemory.{in_memory, in_memory-StoreLaws, starts_with, get}
use uniqys_kit.Blockchain.Blocks.{BlockHeader}
use uniqys_kit.Blockchain.BlockStore.{BlockStore, set_header, get_header, get_body, get_height}
use uniqys_kit.Blockchain.BlockStore.Lookup.{get_header-set_header}
use uniqys_kit.Blockchain.MerkleTree.{
  root?, root_levels, split_point, double_up, pair_hash, concat_sorted, bytes_le,
}
use uniqys_kit.Signature.Keys.{from_data}
use uniqys_kit.Examples.Toy.{toy, hash_of}
use uniqys_kit.Easy.Meta
use uniqys_kit.Easy.Meta.{
  value_or, get_latest_block_timestamp, get_latest_event_timestamp, get_next_validator_set,
}
use uniqys_kit.Easy.State.{merkle_root, new_height, get_app_state}
use uniqys_kit.Easy.State.Heights.{get_app_state-new_height}
use uniqys_kit.Easy.Memcached.{EasyMemcached, Platform, read_write, read_item, decode_item}
use uniqys_kit.Easy.Memcached.Commands.{set_to, next, run}
use uniqys_kit.Easy.Memcached.Refinement.{Outcome, run-next}

abbrev memory : Store (ByteMap Bytes) Bytes
memory = in_memory (λ v. true)

apart : (starts_with (1 ∷ []) (2 ∷ []) ≡ false) × (starts_with (2 ∷ []) (1 ∷ []) ≡ false)
unfolding starts_with
apart = (refl, refl)

abbrev zeros : Bytes
zeros = replicate 32 0

abbrev header_of_two : BlockHeader
header_of_two = record {
  height = 2;
  timestamp = 100;
  last_block_hash = zeros;
  transaction_root = zeros;
  last_block_consensus_root = zeros;
  next_validator_set_root = zeros;
  app_state_hash = zeros;
}

abbrev empty_blocks : BlockStore (ByteMap Bytes)
empty_blocks = record { store = []; cached = none }

get_header-set_header_example :
    (b' : BlockStore (ByteMap Bytes)) × (set_header memory 2 header_of_two empty_blocks ≡ ok b')
    × (get_header memory 2 b' ≡ ok header_of_two)
    × (get_header memory 3 b' ≡ get_header memory 3 empty_blocks)
    × (get_body memory 2 b' ≡ get_body memory 2 empty_blocks)
    × (get_height memory b' ≡ get_height memory empty_blocks)
get_header-set_header_example =
    get_header-set_header memory (in_memory-StoreLaws (λ v. true) (λ v. refl)) 2 3 2 header_of_two
      empty_blocks (omega arith) (omega arith) (omega arith) (λ e. cc)
      (record {
        height = omega arith;
        timestamp = omega arith;
        last_block_hash = refl;
        transaction_root = refl;
        last_block_consensus_root = refl;
        next_validator_set_root = refl;
        app_state_hash = refl;
      })

abbrev platform : Platform Bytes
platform = record { utf8 = λ t. t; parse_int = λ b. none; print_int = λ n. 78 ∷ [] }

abbrev empty_cache : EasyMemcached (ByteMap Bytes)
empty_cache = record { mode = read_write; store = [] }

nothing_there : read_item memory platform true (107 ∷ []) empty_cache ≡ ok none
unfolding read_item decode_item in_memory get ByteMap.get
nothing_there = refl

run-next_example :
    Outcome memory platform true
      (107 ∷ [])
      (next memory platform true (set_to 5 (1 ∷ [])) none)
      empty_cache
      (run memory platform true (107 ∷ []) (set_to 5 (1 ∷ [])) empty_cache)
run-next_example =
    run-next memory platform true (in_memory-StoreLaws (λ v. true) (λ v. refl)) (107 ∷ [])
      (set_to 5 (1 ∷ [])) none empty_cache refl nothing_there
      (record { flags = omega arith; cas_uniq = omega arith })

-- The first height of an application, in an empty store.
first_height : Meta.get_height memory [] ≡ ok 0
unfolding Meta.get_height Meta.entry value_or in_memory get ByteMap.get
first_height = refl

first_time : get_latest_block_timestamp memory [] ≡ ok 0
unfolding get_latest_block_timestamp Meta.entry value_or in_memory get ByteMap.get
first_time = refl

first_validators : get_next_validator_set memory [] ≡ ok []
unfolding get_next_validator_set Meta.entry value_or in_memory get ByteMap.get
first_validators = refl

root_of_two : merkle_root toy (hash_of 1 ∷ hash_of 3 ∷ []) ≡ ok (hash_of 64)
unfolding root? from_data root_levels split_point double_up pair_hash concat_sorted bytes_le
root_of_two = refl

get_app_state-new_height_example :
    (s : ByteMap Bytes) × (new_height memory (hash_of 1) 5 (hash_of 3 ∷ []) true (hash_of 2) []
      ≡ ok s)
    × (get_app_state memory toy s
        ≡ ok (record {
          height = 1;
          hash = hash_of 64;
          next_validator_set = [];
          event_transaction_root = hash_of 2;
        }))
    × (get_latest_block_timestamp memory s ≡ ok 5)
    × (get_latest_event_timestamp memory s ≡ ok 0)
get_app_state-new_height_example =
    get_app_state-new_height memory (in_memory-StoreLaws (λ v. true) (λ v. refl)) toy (hash_of 1)
      (hash_of 2) (hash_of 64) 0 5 0 (hash_of 3 ∷ []) true [] [] first_height first_time
      first_validators root_of_two (omega arith) (omega arith) (omega arith) refl refl (omega arith)
      (refl, tt)
