-- ===== src/ChainCore/Histories.antt =====
-- packages/chain-core/src/consensus-engine/index.ts: what the engine does from a new height on, as long
-- as its validators are the same: it handles messages, steps, and sees timeouts and checks come.
pub mod Entries
use uniqys_kit.Prelude.{
  ℕ, ◌≡◌, Bool, true, false, ◌||◌, not, Option, none, some, List, [], ◌==◌, leb, if◌then◌else◌,
  Result, ok, err, subst, arith, Bool-cases, Result-cases, inl, inr, ◌⊎◌,
}
use uniqys_kit.Types.FixedBytes.{Bytes, equals}
use uniqys_kit.Types.Optional.{is_none}
use uniqys_kit.Signature.{Hash, Crypto}
use uniqys_kit.Blockchain.Transaction.{TransactionList}
use uniqys_kit.Blockchain.Validators.{ValidatorSet, set_hash}
use uniqys_kit.Blockchain.Votes.{Vote}
use uniqys_kit.Blockchain.Blocks.{Block}
use uniqys_kit.Blockchain.Messages.{Proposal, ProposalMessage, ConsensusMessage}
use uniqys_kit.ChainCore.VoteSet.{VoteSet}
use uniqys_kit.ChainCore.State.{
  State, RoundState, Step, new_round_step, propose_step, prevote_step, prevote_wait_step,
  precommit_step, precommit_wait_step, committed_step, new_round, new_height, round_state_of,
  current_round_state,
}
use uniqys_kit.ChainCore.Engine.{
  Effect, decide_prevote, propose_on, do_propose, on_prevotes, do_prevote_or_wait, on_precommits,
  do_precommit_or_wait, on_propose_timeout, on_prevote_timeout, on_precommit_timeout,
  check_valid_block, see_valid, check_round_skip,
}
use uniqys_kit.ChainCore.Nodes.{RemoteNode}
use uniqys_kit.ChainCore.Handlers.{new_consensus_message}
use uniqys_kit.ChainCore.Handlers.Recorded.{IsRecorded, round_state_of-IsOpened}
use uniqys_kit.ChainCore.Handlers.Recorded.Handled.{new_consensus_message-IsRecorded}
use uniqys_kit.ChainCore.Duties.{
  Entry, is_own_turn, enter_by_turn, enter_propose, enter_selected, enter_if_needed, do_new_round,
  proceed_at, proceed_consensus,
}

module _ (c : Crypto) (genesis : Hash) (vs : ValidatorSet) (key : Option Bytes)
    (hash_of : Block → Hash) where
  pub data Reachable : State → Type 0 where
    begin :
        (height : ℕ) (app_state_hash : Hash) (next_root event_root : Hash) (s : State)
        → Reachable (new_height height app_state_hash vs next_root event_root s)
    handled :
        {s : State} (m : ConsensusMessage) (from : Option RemoteNode)
        → Reachable s
        → Reachable (new_consensus_message c genesis vs m from s).state
    proceeded :
        {s t : State} (selected : Option TransactionList) (last : Result Hash)
        (asked : List (Entry ⊎ Effect))
        → Reachable s
        → proceed_consensus c vs key hash_of selected last s ≡ ok (t, asked)
        → Reachable t
    propose_over :
        {s : State} (h r : ℕ) → Reachable s → Reachable (on_propose_timeout hash_of h r s).0
    prevote_over :
        {s : State} (h r : ℕ) → Reachable s → Reachable (on_prevote_timeout hash_of h r s).0
    precommit_over :
        {s : State} (h r : ℕ) → Reachable s → Reachable (on_precommit_timeout hash_of h r s).0
    saw_valid : {s : State} (h r : ℕ) → Reachable s → Reachable (check_valid_block hash_of h r s)
    skipped :
        {s : State} (h r : ℕ) (votes : VoteSet)
        → Reachable s
        → Reachable (check_round_skip hash_of h r votes s)

  abbrev pub Good : State → Type 0
  Good = IsRecorded c genesis vs

  pub opened : (n : ℕ) (s : State) → Good s → Good (round_state_of n s).1
  opened n s h = (round_state_of-IsOpened c genesis vs n s h).1

  decide_prevote-Good : (p : Proposal) (s : State) → Good s → Good (decide_prevote hash_of p s).0
  unfolding decide_prevote
  decide_prevote-Good p s h = let t = opened p.locked_round s h in ground (arith)

  propose_on-Good :
      (o : Option ProposalMessage) (s : State) → Good s → Good (propose_on hash_of o s).0
  unfolding propose_on
  propose_on-Good none s h = h
  propose_on-Good (some m) s h = decide_prevote-Good m.proposal s h

  on_prevotes-Good :
      (o : Option Vote) (r : RoundState) (s : State) → Good s → Good (on_prevotes hash_of o r s).0
  unfolding on_prevotes
  on_prevotes-Good none r s h = ground arith
  on_prevotes-Good (some vote) r s h = ground arith

  on_precommits-Good :
      (o : Option Vote) (r : RoundState) (s : State) → Good s → Good (on_precommits hash_of o r s).0
  unfolding on_precommits
  on_precommits-Good none r s h = ground arith
  on_precommits-Good (some vote) r s h = ground arith

  pub proposed : (s : State) → Good s → Good (do_propose hash_of s).0
  unfolding do_propose current_round_state
  proposed s good =
      let (state, t) = round_state_of s.round s in
      propose_on-Good state.proposal t (opened s.round s good)

  pub prevoted : (s : State) → Good s → Good (do_prevote_or_wait hash_of s).0
  unfolding do_prevote_or_wait current_round_state
  prevoted s good =
      let (state, t) = round_state_of s.round s in
      on_prevotes-Good state.prevote.two_thirds_majority state t (opened s.round s good)

  pub precommitted : (s : State) → Good s → Good (do_precommit_or_wait hash_of s).0
  unfolding do_precommit_or_wait current_round_state
  precommitted s good =
      let (state, t) = round_state_of s.round s in
      on_precommits-Good state.precommit.two_thirds_majority state t (opened s.round s good)

  pub timeouts-Good :
      (h r : ℕ) (s : State)
      → Good s
      → Good (on_propose_timeout hash_of h r s).0
        × Good (on_prevote_timeout hash_of h r s).0
        × Good (on_precommit_timeout hash_of h r s).0
  unfolding on_propose_timeout on_prevote_timeout on_precommit_timeout
  timeouts-Good h r s good = (ground arith, ground arith, ground arith)

  see_valid-Good :
      (r : ℕ) (o : Option Vote) (p : Option ProposalMessage) (s : State)
      → Good s
      → Good (see_valid hash_of r o p s)
  unfolding see_valid
  see_valid-Good r none p s h = h
  see_valid-Good r (some vote) none s h = h
  see_valid-Good r (some vote) (some m) s h = ground arith

  pub check_valid_block-Good :
      (h r : ℕ) (s : State) → Good s → Good (check_valid_block hash_of h r s)
  unfolding check_valid_block
  check_valid_block-Good h r s good =
      let (state, t) = round_state_of r s in
      let seen =
        see_valid-Good r state.prevote.two_thirds_majority state.proposal t (opened r s good) in
      elim (Bool-cases (not (s.height == h) || leb r s.valid_round)) [
        | inl other ↦ rw other good
        | inr same ↦ rw same seen
      ]

  pub check_round_skip-Good :
      (h r : ℕ) (votes : VoteSet) (s : State) → Good s → Good (check_round_skip hash_of h r votes s)
  unfolding check_round_skip
  check_round_skip-Good h r votes s good = ground arith
