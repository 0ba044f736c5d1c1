-- ===== src/Examples/Duties.antt =====
-- A validator alone, at the first height.
use uniqys_kit.Prelude.{◌≡◌, refl, true, none, some, [], ◌∷◌, ok, arith, replicate}
use uniqys_kit.Types.FixedBytes
use uniqys_kit.Types.FixedBytes.{Bytes, equals}
use uniqys_kit.Types.ByteMap
use uniqys_kit.Serialize.Buffer.{
  append, resize, grow, copy, new_writer, contents, ensure, write_through,
}
use uniqys_kit.Serialize.Integers.{be_bytes, write_uint_be}
use uniqys_kit.Serialize.Codec
use uniqys_kit.Serialize.Lists
use uniqys_kit.Serialize.UInt8
use uniqys_kit.Serialize.UInt32
use uniqys_kit.Serialize.UInt64
use uniqys_kit.Signature.{Address}
use uniqys_kit.Signature.Keys
use uniqys_kit.Signature.Keys.{
  hash_zero, from_data, from_public_key, key_pair_address, key_pair_public_key,
}
use uniqys_kit.Blockchain.Validators.{ValidatorSet, power_map, exists, proposer}
use uniqys_kit.Blockchain.Votes.{vote_serialize, consensus_serialize}
use uniqys_kit.Blockchain.Transaction
use uniqys_kit.Blockchain.Blocks.{Block, header_serialize, body_serialize, block_serialize}
use uniqys_kit.Blockchain.Messages
use uniqys_kit.Blockchain.Messages.{
  ProposalMessage, proposal_digest, proposal_serialize, sign_proposal,
}
use uniqys_kit.ChainCore.State.{
  State, new_round_step, new_height, current_round_state, round_state_of, add_round, find_round,
  new_round_state,
}
use uniqys_kit.ChainCore.Handlers.{new_consensus_message}
use uniqys_kit.ChainCore.Handlers.Recorded.{IsRecorded}
use uniqys_kit.ChainCore.Histories
use uniqys_kit.ChainCore.Histories.Entries.{Reachable-IsRecorded}
use uniqys_kit.ChainCore.Proposals.{proposed_block}
use uniqys_kit.ChainCore.Duties.{
  own_proposal, is_own_turn, is_validator, exists_own, send_proposal_message,
}
use uniqys_kit.ChainCore.Duties.Turns.{IsTaken, send_proposal_message-IsTaken}
use uniqys_kit.Examples.Toy.{toy, hash_of, vote_for_7, sign_of_toy}

abbrev own : Address
own = replicate 20 64

abbrev private_key : Bytes
private_key = replicate 32 1

abbrev alone : ValidatorSet
alone = record { address = own; power = 1 } ∷ []

abbrev first_block : Block
first_block = record {
  header = record {
    height = 1;
    timestamp = 100;
    last_block_hash = hash_zero;
    transaction_root = hash_zero;
    last_block_consensus_root = hash_zero;
    next_validator_set_root = hash_zero;
    app_state_hash = hash_zero;
  };
  body = record {
    transaction_list = [];
    last_block_consensus = record { vote = vote_for_7; signatures = [] };
  };
}

abbrev at_first : State
at_first = record {
  height = 1;
  app_state_hash = hash_zero;
  validator_set = alone;
  next_validator_set_root = hash_zero;
  event_transaction_root = hash_zero;
  locked_round = 0;
  locked_block = none;
  valid_round = 0;
  valid_block = none;
  round = 1;
  step = new_round_step;
  rounds = [];
}

abbrev own_message : ProposalMessage
own_message = record {
  proposal = record { height = 1; round = 1; locked_round = 0; block = first_block };
  sign = sign_of_toy;
}

made :
    proposed_block toy at_first first_block first_block.header first_block.body.last_block_consensus
      5 [] none
    ≡ ok first_block
unfolding proposed_block
made = refl

signed : own_proposal toy (hash_of 9) alone at_first private_key first_block ≡ ok own_message
unfolding own_proposal sign_proposal proposal_digest proposal_serialize header_serialize
    block_serialize body_serialize consensus_serialize Transaction.list_serialize vote_serialize
    FixedBytes.serialize UInt8.serialize UInt64.serialize UInt32.serialize Codec.serialize
    write_uint_be be_bytes ensure write_through resize grow copy append new_writer contents
    Keys.sign Keys.construct from_data Lists.serialize Lists.write_items
signed = refl

turn : is_own_turn toy alone (some private_key) at_first ≡ ok true
unfolding is_own_turn is_validator exists_own key_pair_address key_pair_public_key from_public_key
    exists power_map proposer ByteMap.set ByteMap.get ByteMap.has equals FixedBytes.construct
turn = refl

no_proposal : (current_round_state at_first).0.proposal ≡ none
unfolding current_round_state round_state_of add_round find_round new_round_state
no_proposal = refl

send_proposal_message-IsTaken_example : IsTaken toy (hash_of 9) alone own_message (
    send_proposal_message toy
      (hash_of 9)
      alone
      (some private_key)
      first_block
      first_block.header
      first_block.body.last_block_consensus
      5
      []
      at_first)
send_proposal_message-IsTaken_example =
    send_proposal_message-IsTaken toy (hash_of 9) alone private_key first_block first_block.header
      first_block.body.last_block_consensus 5 [] at_first first_block own_message made signed turn
      (omega arith) no_proposal

Reachable-IsRecorded_example :
    IsRecorded toy
      (hash_of 9)
      alone
      (new_consensus_message toy
        (hash_of 9)
        alone
        (Messages.proposal own_message)
        none
        (new_height 1 hash_zero alone hash_zero hash_zero at_first)).state
Reachable-IsRecorded_example =
    Reachable-IsRecorded toy (hash_of 9) alone none (λ block. hash_of block.header.height)
      (Histories.handled (Messages.proposal own_message) none
        (Histories.begin 1 hash_zero hash_zero hash_zero at_first))
