-- ===== src/ChainCore/State.antt =====
-- packages/chain-core/src/consensus-engine/state.ts: RoundState and State. The lock is
-- Lock.ReadWrite, and what runs under it is one step.
use uniqys_kit.Prelude.{
  ℕ, ◌==◌, Bool, true, false, Option, none, some, List, [], ◌∷◌, if◌then◌else◌,
}
use uniqys_kit.Signature.{Hash}
use uniqys_kit.Blockchain.Validators.{ValidatorSet}
use uniqys_kit.Blockchain.Blocks.{Block}
use uniqys_kit.Blockchain.Messages.{ProposalMessage}
use uniqys_kit.ChainCore.VoteSet.{VoteSet, new_vote_set}

pub data Step : Type 0 where
  new_round_step : Step
  propose_step : Step
  prevote_step : Step
  prevote_wait_step : Step
  precommit_step : Step
  precommit_wait_step : Step
  committed_step : Step

unfoldable pub same_step : Step → Step → Bool
same_step new_round_step new_round_step = true
same_step propose_step propose_step = true
same_step prevote_step prevote_step = true
same_step prevote_wait_step prevote_wait_step = true
same_step precommit_step precommit_step = true
same_step precommit_wait_step precommit_wait_step = true
same_step committed_step committed_step = true
same_step _ _ = false

pub record RoundState : Type 0 where
  pub proposal : Option ProposalMessage
  pub prevote : VoteSet
  pub precommit : VoteSet

unfoldable pub new_round_state : RoundState
unfolding new_vote_set
new_round_state = record { proposal = none; prevote = new_vote_set; precommit = new_vote_set }

pub record State : Type 0 where
  pub height : ℕ
  pub app_state_hash : Hash
  pub validator_set : ValidatorSet
  pub next_validator_set_root : Hash
  pub event_transaction_root : Hash
  pub locked_round : ℕ
  pub locked_block : Option Block
  pub valid_round : ℕ
  pub valid_block : Option Block
  pub round : ℕ
  pub step : Step
  pub rounds : List (ℕ × RoundState)

-- Map.get with the numbers of rounds
unfoldable pub find_round : ℕ → List (ℕ × RoundState) → Option RoundState
find_round round [] = none
find_round round ((r, state) ∷ rounds) = if r == round then some state else find_round round rounds

unfoldable pub new_round : ℕ → State → State
new_round round s = record s { round = round; step = new_round_step }

unfoldable pub new_height : ℕ → Hash → ValidatorSet → Hash → Hash → State → State
unfolding new_round
new_height height app_state_hash validator_set next_validator_set_root event_transaction_root s =
    new_round 1 (record s {
      height = height;
      app_state_hash = app_state_hash;
      validator_set = validator_set;
      next_validator_set_root = next_validator_set_root;
      event_transaction_root = event_transaction_root;
      locked_round = 0;
      locked_block = none;
      valid_round = 0;
      valid_block = none;
      rounds = [];
    })

-- roundStateOf: the state of the round, which is added if it is not there
unfoldable pub add_round : ℕ → Option RoundState → State → RoundState × State
unfolding new_round_state
add_round round (some state) s = (state, s)
add_round round none s =
    (new_round_state, record s { rounds = (round, new_round_state) ∷ s.rounds })

unfoldable pub round_state_of : ℕ → State → RoundState × State
unfolding add_round
round_state_of round s = add_round round (find_round round s.rounds) s

unfoldable pub current_round_state : State → RoundState × State
unfolding round_state_of
current_round_state s = round_state_of s.round s
