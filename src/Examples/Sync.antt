-- ===== src/Examples/Sync.antt =====
-- Catching up from height 1 to height 3.
use uniqys_kit.Prelude.{
  ◌≡◌, ◌≢◌, ℕ, refl, true, List, [], ◌∷◌, ◌++◌, replicate, none, ok, arith, All,
}
use uniqys_kit.Types.ByteMap
use uniqys_kit.Types.ByteMap.{ByteMap}
use uniqys_kit.Types.FixedBytes
use uniqys_kit.Types.FixedBytes.{Bytes, equals}
use uniqys_kit.Serialize.Buffer.{
  append, resize, grow, copy, new_writer, contents, ensure, write_through,
}
use uniqys_kit.Serialize.Integers.{be_bytes, write_uint_be}
use uniqys_kit.Serialize.Codec
use uniqys_kit.Serialize.UInt64
use uniqys_kit.Signature.{Hash}
use uniqys_kit.Signature.Keys.{hash_zero, from_data}
use uniqys_kit.Store.Interface.{Store}
use uniqys_kit.Store.InMemory.{in_memory, in_memory-StoreLaws}
use uniqys_kit.Blockchain.Blocks.{BlockHeader, HeaderInRange, header_hash, header_serialize}
use uniqys_kit.Blockchain.BlockStore.{BlockStore, set_header, header_key, write_prefix, put}
use uniqys_kit.ChainCore.Sync.Jobs.{jobs, split_jobs, Fetched, IsInside, jobs-Fetched}
use uniqys_kit.ChainCore.Sync.Headers.{
  Round, Progress, catch_up_headers, run_rounds, accept_headers, accept_header, Linked,
}
use uniqys_kit.ChainCore.Sync.Linkage.{Reached, catch_up_headers-Linked, catch_up_headers-stops}
use uniqys_kit.Examples.Toy.{toy, hash_of}

-- The bodies of the heights 3 and 4 are asked for together, and that of 2 with the next job, which
-- asks for it again.
jobs_overlap : jobs 0 2 4 ≡ record { from = 2; to = 4 } ∷ record { from = 1; to = 2 } ∷ []
unfolding jobs split_jobs
jobs_overlap = refl

jobs-Fetched_example : Fetched 3 (jobs 0 2 4) × All (IsInside 0 2 4) (jobs 0 2 4)
jobs-Fetched_example = jobs-Fetched 0 2 4 3 (omega arith) (omega arith) (omega arith)

abbrev memory : Store (ByteMap Bytes) Bytes
memory = in_memory (λ v. true)

abbrev blocks : BlockStore (ByteMap Bytes)
blocks = record { store = []; cached = none }

abbrev header_2 : BlockHeader
header_2 = record {
  height = 2;
  timestamp = 20;
  last_block_hash = hash_zero;
  transaction_root = hash_zero;
  last_block_consensus_root = hash_zero;
  next_validator_set_root = hash_zero;
  app_state_hash = hash_zero;
}

abbrev header_3 : BlockHeader
header_3 = record header_2 { height = 3; last_block_hash = hash_of 176 }

abbrev answer : Round
answer = record { height = 1; headers = header_2 ∷ [] }

abbrev rounds : List Round
rounds = answer ∷ answer ∷ answer ∷ answer ∷ []

-- What the store has for a header: the height, the time, the hash of the parent, and zeros.
abbrev stored : ℕ → Hash → Bytes × Bytes
stored height parent =
    (104 ∷ be_bytes 8 height, be_bytes 8 height ++ be_bytes 8 20 ++ parent ++ replicate 128 0)

abbrev caught_up : Progress (ByteMap Bytes)
caught_up = record {
  last = header_2;
  blocks = record { store = stored 3 (hash_of 176) ∷ stored 2 hash_zero ∷ []; cached = none };
  is_done = true;
}

runs : catch_up_headers toy memory rounds header_3 blocks ≡ ok caught_up
unfolding catch_up_headers run_rounds accept_headers accept_header set_header header_key
    write_prefix put header_hash header_serialize from_data equals FixedBytes.serialize
    UInt64.serialize Codec.serialize write_uint_be be_bytes ensure write_through resize grow copy
    append new_writer contents in_memory ByteMap.set
runs = refl

header_2-InRange : HeaderInRange header_2
header_2-InRange = record {
  height = omega arith;
  timestamp = omega arith;
  last_block_hash = refl;
  transaction_root = refl;
  last_block_consensus_root = refl;
  next_validator_set_root = refl;
  app_state_hash = refl;
}

header_3-InRange : HeaderInRange header_3
header_3-InRange = record {
  height = omega arith;
  timestamp = omega arith;
  last_block_hash = refl;
  transaction_root = refl;
  last_block_consensus_root = refl;
  next_validator_set_root = refl;
  app_state_hash = refl;
}

catch_up_headers-Linked_example :
    Linked toy memory header_3 caught_up.blocks header_2 × Reached toy memory 2 rounds
catch_up_headers-Linked_example =
    catch_up_headers-Linked toy memory (in_memory-StoreLaws (λ v. true) (λ v. refl)) rounds header_3
      blocks caught_up header_3-InRange
      (
        (header_2-InRange, tt),
        ((header_2-InRange, tt), ((header_2-InRange, tt), ((header_2-InRange, tt), tt))),
      )
      runs refl

some_header : (header_2 ∷ []) ≢ []
some_header h = cc

catch_up_headers-stops_example : caught_up.is_done ≡ true
catch_up_headers-stops_example =
    catch_up_headers-stops toy memory rounds header_3 blocks caught_up runs
      (some_header, (some_header, (some_header, (some_header, tt)))) (omega arith)
