-- ===== src/ChainCore/Engine.antt =====
-- packages/chain-core/src/consensus-engine/index.ts: the steps of the consensus loop, which run one
-- at a time. What a step asks others to do is a list of effects: its messages are handled later, by
-- calls that are not awaited. The hash of a block is computed where the block is made. doPropose
-- tests the promise of validateBlock, which is true, so that its first branch is never taken.
pub mod Locking
pub mod Kept
pub mod Rounds
use uniqys_kit.Prelude.{
  ℕ, suc, ◌+◌, ◌==◌, Bool, true, false, Option, none, some, List, [], ◌∷◌, ◌&&◌, ◌||◌, not,
  if◌then◌else◌, ltb, leb,
}
use uniqys_kit.Types.FixedBytes.{equals}
use uniqys_kit.Signature.{Hash, Signature}
use uniqys_kit.Signature.Keys.{hash_zero}
use uniqys_kit.Blockchain.Votes.{Vote, Consensus}
use uniqys_kit.Blockchain.Blocks.{Block}
use uniqys_kit.Blockchain.Messages.{Proposal, ProposalMessage}
use uniqys_kit.ChainCore.VoteSet.{VoteSet, signatures}
use uniqys_kit.ChainCore.State.{
  State, RoundState, Step, propose_step, prevote_step, prevote_wait_step, precommit_step,
  precommit_wait_step, committed_step, same_step, new_round, round_state_of, current_round_state,
}

-- The messages are for a block or for nil, and a timeout is for a height and a round.
pub data Effect : Type 0 where
  send_prevote : Option Hash → Effect
  send_precommit : Option Hash → Effect
  prevote_timeout : ℕ → ℕ → Effect
  precommit_timeout : ℕ → ℕ → Effect
  new_block : Block → Consensus → Effect

module _ (hash_of : Block → Hash) where
  -- `opt && opt.hash.equals(hash)`
  unfoldable pub is_block : Hash → Option Block → Bool
  is_block hash none = false
  is_block hash (some block) = equals (hash_of block) hash

  -- `opt.match(v => v.blockHash.equals(hash), () => false)`
  unfoldable pub is_majority_for : Hash → Option Vote → Bool
  is_majority_for hash none = false
  is_majority_for hash (some vote) = equals vote.block_hash hash

  -- `msg && vote.blockHash.equals(msg.proposal.block.hash)`
  unfoldable pub is_proposed : Hash → Option ProposalMessage → Bool
  is_proposed hash none = false
  is_proposed hash (some message) = equals hash (hash_of message.proposal.block)

  unfoldable pub prevote_for : Option Hash → State → State × List Effect
  prevote_for choice s = (record s { step = prevote_step }, send_prevote choice ∷ [])

  -- The last branch of doPropose reads the round of the proposer's lock.
  unfoldable pub unlock_by : Proposal → State → State × List Effect
  unfolding prevote_for is_majority_for round_state_of
  unlock_by proposal s =
      if leb s.locked_round proposal.locked_round
      then (let (round_state, t) = round_state_of proposal.locked_round s in
          if is_majority_for (hash_of proposal.block) round_state.prevote.two_thirds_majority
          then prevote_for (some (hash_of proposal.block)) t
          else (t, []))
      else (s, [])

  unfoldable pub decide_prevote : Proposal → State → State × List Effect
  unfolding unlock_by is_block prevote_for
  decide_prevote proposal s =
      let is_locked_block = is_block (hash_of proposal.block) s.locked_block in
      if ltb proposal.locked_round s.locked_round && not is_locked_block
      then prevote_for none s
      else if s.locked_round == 0 || is_locked_block
      then prevote_for (some (hash_of proposal.block)) s
      else unlock_by proposal s

  unfoldable pub propose_on : Option ProposalMessage → State → State × List Effect
  unfolding decide_prevote
  propose_on none s = (s, [])
  propose_on (some message) s = decide_prevote message.proposal s

  unfoldable pub do_propose : State → State × List Effect
  unfolding propose_on current_round_state
  do_propose s = let (round_state, t) = current_round_state s in propose_on round_state.proposal t

  unfoldable pub wait_prevote : VoteSet → State → State × List Effect
  wait_prevote prevote s =
      if same_step s.step prevote_step && prevote.two_thirds_any
      then (record s { step = prevote_wait_step }, prevote_timeout s.height s.round ∷ [])
      else (s, [])

  unfoldable pub precommit_for : Option Hash → State → State × List Effect
  precommit_for choice s = (record s { step = precommit_step }, send_precommit choice ∷ [])

  unfoldable pub lock_proposal : Option ProposalMessage → State → State
  lock_proposal none s = s
  lock_proposal (some message) s = record s {
    locked_round = s.round;
    locked_block = some message.proposal.block;
  }

  unfoldable pub on_prevotes : Option Vote → RoundState → State → State × List Effect
  unfolding wait_prevote precommit_for lock_proposal is_proposed
  on_prevotes none round_state s = wait_prevote round_state.prevote s
  on_prevotes (some vote) round_state s =
      if is_proposed vote.block_hash round_state.proposal
      then precommit_for (some vote.block_hash) (lock_proposal round_state.proposal s)
      else if equals vote.block_hash hash_zero
      then precommit_for none s
      else wait_prevote round_state.prevote s

  unfoldable pub do_prevote_or_wait : State → State × List Effect
  unfolding on_prevotes current_round_state
  do_prevote_or_wait s =
      let (round_state, t) = current_round_state s in
      on_prevotes round_state.prevote.two_thirds_majority round_state t

  -- commitBlock, for the vote of the majority
  unfoldable pub commit_block : Vote → VoteSet → Block → State → State × List Effect
  unfolding signatures
  commit_block vote precommit block s =
      let consensus : Consensus = record {
        vote = vote;
        signatures = signatures vote.block_hash precommit;
      } in
      (record s { step = committed_step }, new_block block consensus ∷ [])

  unfoldable pub commit_proposal :
      Vote → VoteSet → Option ProposalMessage → State → State × List Effect
  unfolding commit_block
  commit_proposal vote precommit none s = (s, [])
  commit_proposal vote precommit (some message) s =
      commit_block vote precommit message.proposal.block s

  unfoldable pub wait_precommit : VoteSet → State → State × List Effect
  wait_precommit precommit s =
      if same_step s.step precommit_step && precommit.two_thirds_any
      then (record s { step = precommit_wait_step }, precommit_timeout s.height s.round ∷ [])
      else (s, [])

  unfoldable pub on_precommits : Option Vote → RoundState → State → State × List Effect
  unfolding wait_precommit commit_proposal is_proposed new_round
  on_precommits none round_state s = wait_precommit round_state.precommit s
  on_precommits (some vote) round_state s =
      if is_proposed vote.block_hash round_state.proposal
      then commit_proposal vote round_state.precommit round_state.proposal s
      else if equals vote.block_hash hash_zero
      then (new_round (s.round + 1) s, [])
      else wait_precommit round_state.precommit s

  unfoldable pub do_precommit_or_wait : State → State × List Effect
  unfolding on_precommits current_round_state
  do_precommit_or_wait s =
      let (round_state, t) = current_round_state s in
      on_precommits round_state.precommit.two_thirds_majority round_state t

  -- `this.state.height === height && this.state.round === round && this.state.step === step`
  unfoldable pub is_at : ℕ → ℕ → Step → State → Bool
  unfolding same_step
  is_at height round step s = s.height == height && (s.round == round && same_step s.step step)

  unfoldable pub on_propose_timeout : ℕ → ℕ → State → State × List Effect
  unfolding is_at prevote_for
  on_propose_timeout height round s =
      if is_at height round propose_step s then prevote_for none s else (s, [])

  unfoldable pub on_prevote_timeout : ℕ → ℕ → State → State × List Effect
  unfolding is_at precommit_for
  on_prevote_timeout height round s =
      if is_at height round prevote_wait_step s then precommit_for none s else (s, [])

  unfoldable pub on_precommit_timeout : ℕ → ℕ → State → State × List Effect
  unfolding is_at new_round
  on_precommit_timeout height round s =
      if is_at height round precommit_wait_step s then (new_round (s.round + 1) s, []) else (s, [])

  unfoldable pub see_valid : ℕ → Option Vote → Option ProposalMessage → State → State
  see_valid round none proposal s = s
  see_valid round (some vote) none s = s
  see_valid round (some vote) (some message) s =
      if equals vote.block_hash (hash_of message.proposal.block)
      then record s { valid_round = round; valid_block = some message.proposal.block }
      else s

  unfoldable pub check_valid_block : ℕ → ℕ → State → State
  unfolding see_valid round_state_of
  check_valid_block height round s =
      if not (s.height == height) || leb round s.valid_round
      then s
      else (let (round_state, t) = round_state_of round s in
          see_valid round round_state.prevote.two_thirds_majority round_state.proposal t)

  unfoldable pub check_round_skip : ℕ → ℕ → VoteSet → State → State
  unfolding new_round
  check_round_skip height round vote s =
      if not (s.height == height) || leb round s.round
      then s
      else if vote.one_third_any
      then new_round round s
      else s
