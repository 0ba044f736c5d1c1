-- ===== src/Examples/Engine.antt =====
-- Steps of the consensus loop.
use uniqys_kit.Prelude.{ℕ, ◌-◌, ◌≤◌, length, Result, ok, ◌≡◌, refl, true, none, some, [], ◌∷◌}
use uniqys_kit.Types.FixedBytes.{equals}
use uniqys_kit.Signature.{Hash}
use uniqys_kit.Signature.Keys.{hash_zero}
use uniqys_kit.Blockchain.Blocks.{Block}
use uniqys_kit.Blockchain.Messages.{ProposalMessage}
use uniqys_kit.ChainCore.VoteSet.{VoteSet}
use uniqys_kit.ChainCore.State.{
  State, RoundState, propose_step, new_height, find_round, add_round, round_state_of,
  current_round_state,
}
use uniqys_kit.ChainCore.Engine.{
  do_propose, propose_on, decide_prevote, is_block, prevote_for, send_prevote, send_precommit,
  do_prevote_or_wait, on_prevotes, is_proposed, lock_proposal, precommit_for,
}
use uniqys_kit.ChainCore.Engine.Locking.{
  MayPrevote, do_propose-MayPrevote, Locks, do_prevote_or_wait-Locks,
}
use uniqys_kit.ChainCore.Engine.Rounds
use uniqys_kit.ChainCore.Engine.Rounds.{IsSound, begin, Reachable-IsSound}
use uniqys_kit.ChainCore.Executor.{AppState, execute_block_transactions, finish_block, check_hash}
use uniqys_kit.ChainCore.Pool.{finish_add, added, empty, length-Reachable}
use uniqys_kit.Blockchain.Transaction.{Transaction}
use uniqys_kit.Examples.Toy.{hash_of, vote_for_7, sign_of_toy}

-- The hash of a block is taken from its height.
abbrev hash_of_block : Block → Hash
hash_of_block block = hash_of block.header.height

abbrev block_7 : Block
block_7 = record {
  header = record {
    height = 7;
    timestamp = 100;
    last_block_hash = hash_zero;
    transaction_root = hash_zero;
    last_block_consensus_root = hash_zero;
    next_validator_set_root = hash_zero;
    app_state_hash = hash_zero;
  };
  body = record {
    transaction_list = [];
    last_block_consensus = record { vote = vote_for_7; signatures = [] };
  };
}

abbrev proposal_of_7 : ProposalMessage
proposal_of_7 = record {
  proposal = record { height = 3; round = 1; locked_round = 0; block = block_7 };
  sign = sign_of_toy;
}

abbrev prevoted : VoteSet
prevoted = record {
  power = 10;
  power_of_block = [];
  message_of_validator = [];
  two_thirds_majority = some vote_for_7;
  two_thirds_any = true;
  one_third_any = true;
}

abbrev round_one : RoundState
round_one = record { proposal = some proposal_of_7; prevote = prevoted; precommit = prevoted }

abbrev in_round_one : State
in_round_one = record {
  height = 3;
  app_state_hash = hash_zero;
  validator_set = [];
  next_validator_set_root = hash_zero;
  event_transaction_root = hash_zero;
  locked_round = 0;
  locked_block = none;
  valid_round = 0;
  valid_block = none;
  round = 1;
  step = propose_step;
  rounds = (1, round_one) ∷ [];
}

prevotes_7 : (do_propose hash_of_block in_round_one).1 ≡ send_prevote (some (hash_of 7)) ∷ []
unfolding do_propose propose_on decide_prevote is_block prevote_for current_round_state
    round_state_of add_round find_round
prevotes_7 = refl

do_propose-MayPrevote_example :
    (m : ProposalMessage) × ((current_round_state in_round_one).0.proposal ≡ some m)
    × (hash_of 7 ≡ hash_of_block m.proposal.block)
    × MayPrevote hash_of_block (hash_of 7) m.proposal (current_round_state in_round_one).1
do_propose-MayPrevote_example =
    do_propose-MayPrevote hash_of_block in_round_one (hash_of 7) prevotes_7

precommits_7 :
    (do_prevote_or_wait hash_of_block in_round_one).1 ≡ send_precommit (some (hash_of 7)) ∷ []
unfolding do_prevote_or_wait on_prevotes is_proposed lock_proposal precommit_for current_round_state
    round_state_of add_round find_round equals
precommits_7 = refl

do_prevote_or_wait-Locks_example :
    Locks hash_of_block
      (hash_of 7)
      (current_round_state in_round_one).0.prevote.two_thirds_majority
      (current_round_state in_round_one).0.proposal
      (current_round_state in_round_one).1.round
      (do_prevote_or_wait hash_of_block in_round_one).0
do_prevote_or_wait-Locks_example =
    do_prevote_or_wait-Locks hash_of_block in_round_one (hash_of 7) precommits_7

Reachable-IsSound_example :
    IsSound
      (do_prevote_or_wait hash_of_block
        (new_height 3 hash_zero [] hash_zero hash_zero in_round_one)).0
Reachable-IsSound_example =
    Reachable-IsSound hash_of_block
      (Rounds.prevoted (begin 3 hash_zero [] hash_zero hash_zero in_round_one))

abbrev state_of : ℕ → AppState
state_of height = record { height = height; hash = hash_of height }

-- The header of a block has the state after the block before.
abbrev header_hashes : ℕ → Result Hash
header_hashes n = ok (hash_of (n - 1))

one_block :
    execute_block_transactions header_hashes (λ n. ok (state_of n)) 5 5 (state_of 1)
    ≡ ok (state_of 2)
unfolding execute_block_transactions finish_block check_hash equals
one_block = refl

abbrev transaction : Transaction
transaction = record { kind = 1; payload = [] }

length-Reachable_example : length (finish_add (λ tx. hash_of 1) 1 transaction true []) ≤ 1
length-Reachable_example = length-Reachable (λ tx. hash_of 1) 1 (added transaction true empty)
