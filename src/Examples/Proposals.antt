-- ===== src/Examples/Proposals.antt =====
-- A node proposes the block of height 3.
use uniqys_kit.Prelude.{◌≡◌, refl, true, [], none, ok, arith}
use uniqys_kit.Types.FixedBytes
use uniqys_kit.Serialize.Buffer.{
  append, resize, grow, copy, new_writer, contents, ensure, write_through,
}
use uniqys_kit.Serialize.Integers.{be_bytes, write_uint_be}
use uniqys_kit.Serialize.Codec
use uniqys_kit.Serialize.UInt32
use uniqys_kit.Serialize.UInt64
use uniqys_kit.Signature.Keys.{hash_zero, from_data}
use uniqys_kit.Blockchain.MerkleTree.{root?, root_levels}
use uniqys_kit.Blockchain.Transaction
use uniqys_kit.Blockchain.Votes.{Consensus, consensus_hash, vote_serialize, signature_hashes}
use uniqys_kit.Blockchain.Blocks.{Block, BlockHeader, header_hash, header_serialize, construct}
use uniqys_kit.ChainCore.State.{State, new_round_step}
use uniqys_kit.ChainCore.Proposals.{events, next_block, validate_block, validate_block-next_block}
use uniqys_kit.Examples.Toy.{toy, hash_of, vote_for_7}

abbrev last : BlockHeader
last = record {
  height = 2;
  timestamp = 20;
  last_block_hash = hash_zero;
  transaction_root = hash_zero;
  last_block_consensus_root = hash_zero;
  next_validator_set_root = hash_zero;
  app_state_hash = hash_zero;
}

abbrev last_consensus : Consensus
last_consensus = record { vote = vote_for_7; signatures = [] }

abbrev at_3 : State
at_3 = record {
  height = 3;
  app_state_hash = hash_of 4;
  validator_set = [];
  next_validator_set_root = hash_of 5;
  event_transaction_root = hash_of 0;
  locked_round = 0;
  locked_block = none;
  valid_round = 0;
  valid_block = none;
  round = 1;
  step = new_round_step;
  rounds = [];
}

abbrev block : Block
block = record {
  header = record {
    height = 3;
    timestamp = 25;
    last_block_hash = hash_of 176;
    transaction_root = hash_of 0;
    last_block_consensus_root = hash_of 64;
    next_validator_set_root = hash_of 5;
    app_state_hash = hash_of 4;
  };
  body = record { transaction_list = []; last_block_consensus = last_consensus };
}

made : next_block toy at_3 last last_consensus 25 [] ≡ ok block
unfolding next_block construct header_hash header_serialize consensus_hash vote_serialize
    Transaction.list_hash Transaction.hashes root? from_data FixedBytes.serialize UInt64.serialize
    UInt32.serialize Codec.serialize write_uint_be be_bytes ensure write_through resize grow copy
    append new_writer contents root_levels signature_hashes
made = refl

no_events : Transaction.list_hash toy (events []) ≡ ok (hash_of 0)
unfolding events Transaction.list_hash Transaction.hashes root? from_data root_levels
no_events = refl

validate_block-next_block_example : validate_block toy 10 at_3 block last 25 block ≡ true
validate_block-next_block_example =
    validate_block-next_block toy 10 at_3 block block last last_consensus 25 [] made refl
      (omega arith) no_events
