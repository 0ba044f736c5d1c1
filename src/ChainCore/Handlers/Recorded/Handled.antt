-- ===== src/ChainCore/Handlers/Recorded/Handled.antt =====
-- packages/chain-core/src/consensus-engine/index.ts: what is recorded after each kind of message.
use uniqys_kit.Prelude.{
  ℕ, ◌==◌, ◌≡◌, inl, inr, ◌||◌, not, Option, List, ltb, Result, ok, err, Bool-cases, arith,
}
use uniqys_kit.Signature.{Hash, Address, Crypto}
use uniqys_kit.Blockchain.Validators.{ValidatorSet}
use uniqys_kit.Blockchain.Messages
use uniqys_kit.Blockchain.Messages.{ProposalMessage, VoteMessage, ConsensusMessage, signer_address}
use uniqys_kit.ChainCore.VoteSet.{has, add}
use uniqys_kit.ChainCore.VoteSet.Tally.{add-IsTallied}
use uniqys_kit.ChainCore.Nodes.{RemoteNode}
use uniqys_kit.ChainCore.State.{State, add_round, round_state_of}
use uniqys_kit.ChainCore.Handlers.{
  Task, record_round, note_height, handle_proposal, record_prevote, handle_prevote,
  record_precommit, handle_precommit, new_consensus_message,
}
use uniqys_kit.ChainCore.Handlers.Recorded.{
  IsRecorded, set_round-AreRounds, round_state_of-IsOpened, note_height-IsRecorded,
  check_proposal-IsRecorded,
}

module _ (c : Crypto) (genesis : Hash) (vs : ValidatorSet) where
  -- The state of a round is opened at the same height.
  round_state_of-height : (n : ℕ) (s : State) → (round_state_of n s).1.height ≡ s.height
  unfolding round_state_of add_round
  round_state_of-height n s = ground arith

  handle_proposal-IsRecorded :
      (m : ProposalMessage) (from : Option RemoteNode) (s : State)
      → IsRecorded c genesis vs s
      → IsRecorded c genesis vs (handle_proposal c genesis vs m from s).state
  unfolding handle_proposal
  handle_proposal-IsRecorded m from s h =
      let noted = note_height m.proposal.height from s in
      let s' = noted.1 in
      let opened = round_state_of m.proposal.round s' in
      let h' = note_height-IsRecorded c genesis vs m.proposal.height from s h in
      let mismatch = not (m.proposal.height == s'.height) in
      let late = ltb m.proposal.round s'.round in
      elim (Bool-cases (mismatch || late)) [
        | inl other ↦ rw other h'
        | inr same ↦ rw same (
            check_proposal-IsRecorded c genesis vs m noted.0 noted.2 opened.0.proposal opened.0
              opened.1 (ground (arith, round_state_of-height m.proposal.round s'))
              (round_state_of-IsOpened c genesis vs m.proposal.round s' h'))
      ]

  record_prevote-IsRecorded :
      (m : VoteMessage) (from : Option RemoteNode) (tasks : List Task) (s : State)
      (signer : Result Address)
      → IsRecorded c genesis vs s
      → IsRecorded c genesis vs (record_prevote c genesis vs m from tasks s signer).state
  unfolding record_prevote record_round
  record_prevote-IsRecorded m from tasks s (err e) h = h
  record_prevote-IsRecorded m from tasks s (ok address) h =
      let opened = round_state_of m.vote.round s in
      let r = opened.0 in
      let t = opened.1 in
      let (is_round, kept) = round_state_of-IsOpened c genesis vs m.vote.round s h in
      let votes = add t.validator_set address m r.prevote in
      elim (Bool-cases (has address r.prevote)) [
        | inl known ↦ rw known kept
        | inr first ↦ rw first (
            set_round-AreRounds c genesis vs t.height t.validator_set m.vote.round
              (record r { prevote = votes.0 }) t.rounds
              (record {
                proposal = is_round.proposal;
                prevote = add-IsTallied t.validator_set address m r.prevote is_round.prevote;
                precommit = is_round.precommit;
              })
              kept)
      ]

  handle_prevote-IsRecorded :
      (m : VoteMessage) (from : Option RemoteNode) (s : State)
      → IsRecorded c genesis vs s
      → IsRecorded c genesis vs (handle_prevote c genesis vs m from s).state
  unfolding handle_prevote
  handle_prevote-IsRecorded m from s h =
      let noted = note_height m.vote.height from s in
      let h' = note_height-IsRecorded c genesis vs m.vote.height from s h in
      elim (Bool-cases (m.vote.height == noted.1.height)) [
        | inl same ↦ rw same (
            record_prevote-IsRecorded m noted.0 noted.2 noted.1
              (signer_address c (Messages.prevote m) genesis) h')
        | inr other ↦ rw other h'
      ]

  record_precommit-IsRecorded :
      (m : VoteMessage) (from : Option RemoteNode) (tasks : List Task) (s : State)
      (signer : Result Address)
      → IsRecorded c genesis vs s
      → IsRecorded c genesis vs (record_precommit c genesis vs m from tasks s signer).state
  unfolding record_precommit record_round
  record_precommit-IsRecorded m from tasks s (err e) h = h
  record_precommit-IsRecorded m from tasks s (ok address) h =
      let opened = round_state_of m.vote.round s in
      let r = opened.0 in
      let t = opened.1 in
      let (is_round, kept) = round_state_of-IsOpened c genesis vs m.vote.round s h in
      let votes = add t.validator_set address m r.precommit in
      elim (Bool-cases (has address r.precommit)) [
        | inl known ↦ rw known kept
        | inr first ↦ rw first (
            set_round-AreRounds c genesis vs t.height t.validator_set m.vote.round
              (record r { precommit = votes.0 }) t.rounds
              (record {
                proposal = is_round.proposal;
                precommit = add-IsTallied t.validator_set address m r.precommit is_round.precommit;
                prevote = is_round.prevote;
              })
              kept)
      ]

  handle_precommit-IsRecorded :
      (m : VoteMessage) (from : Option RemoteNode) (s : State)
      → IsRecorded c genesis vs s
      → IsRecorded c genesis vs (handle_precommit c genesis vs m from s).state
  unfolding handle_precommit
  handle_precommit-IsRecorded m from s h =
      let noted = note_height m.vote.height from s in
      let h' = note_height-IsRecorded c genesis vs m.vote.height from s h in
      elim (Bool-cases (m.vote.height == noted.1.height)) [
        | inl same ↦ rw same (
            record_precommit-IsRecorded m noted.0 noted.2 noted.1
              (signer_address c (Messages.precommit m) genesis) h')
        | inr other ↦ rw other h'
      ]

  pub new_consensus_message-IsRecorded :
      (m : ConsensusMessage) (from : Option RemoteNode) (s : State)
      → IsRecorded c genesis vs s
      → IsRecorded c genesis vs (new_consensus_message c genesis vs m from s).state
  unfolding new_consensus_message
  new_consensus_message-IsRecorded (Messages.proposal m) from s h =
      handle_proposal-IsRecorded m from s h
  new_consensus_message-IsRecorded (Messages.prevote m) from s h =
      handle_prevote-IsRecorded m from s h
  new_consensus_message-IsRecorded (Messages.precommit m) from s h =
      handle_precommit-IsRecorded m from s h
