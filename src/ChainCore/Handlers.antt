-- ===== src/ChainCore/Handlers.antt =====
-- packages/chain-core/src/consensus-engine/index.ts: the handlers of consensus messages. A handler
-- runs to its end before anything else does; what it starts and does not await is a list of tasks. A
-- handler that throws leaves the state that it has made. The validators are those of the engine.
pub mod Recorded
use uniqys_kit.Prelude.{
  ℕ, ◌+◌, ◌-◌, ◌==◌, Bool, true, false, ◌&&◌, ◌||◌, not, Option, none, some, List, [], ◌∷◌, ◌++◌,
  map, if◌then◌else◌, ltb, leb, Result, ok, err, ◌>>=◌,
}
use uniqys_kit.Types.FixedBytes.{equals}
use uniqys_kit.Types.ByteMap
use uniqys_kit.Signature.{Hash, Address, Crypto}
use uniqys_kit.Blockchain.Validators.{ValidatorSet, proposer}
use uniqys_kit.Blockchain.Messages
use uniqys_kit.Blockchain.Messages.{ProposalMessage, VoteMessage, ConsensusMessage, signer_address}
use uniqys_kit.ChainCore.VoteSet.{VoteSet, has, add, messages}
use uniqys_kit.ChainCore.Nodes.{RemoteNode, consensus_height}
use uniqys_kit.ChainCore.State.{State, RoundState, round_state_of, current_round_state}

-- The checks run later, under the lock of the state, for a height and a round.
pub data Task : Type 0 where
  gossip : ConsensusMessage → Task
  check_prevotes_skip : ℕ → ℕ → Task
  check_precommits_skip : ℕ → ℕ → Task
  check_valid : ℕ → ℕ → Task
  catch_up : RemoteNode → List ConsensusMessage → Task

pub record Handled : Type 0 where
  pub state : State
  pub from : Option RemoteNode
  pub tasks : List Task
  pub outcome : Result (Unit {0})

-- The round's state is shared, so that its fields are set where it stands.
unfoldable pub set_round : ℕ → RoundState → List (ℕ × RoundState) → List (ℕ × RoundState)
set_round round state [] = (round, state) ∷ []
set_round round state ((r, old) ∷ rounds) =
    let rest = set_round round state rounds in
    if r == round then (r, state) ∷ rounds else (r, old) ∷ rest

unfoldable pub record_round : ℕ → RoundState → State → State
unfolding set_round
record_round round state s = record s { rounds = set_round round state s.rounds }

unfoldable pub proposal_messages : Option ProposalMessage → List ConsensusMessage
proposal_messages none = []
proposal_messages (some m) = Messages.proposal m ∷ []

-- What sendRoundState sends, where nothing is recorded while it sends.
unfoldable pub round_messages : RoundState → List ConsensusMessage
unfolding proposal_messages messages
round_messages r =
    proposal_messages r.proposal
    ++ (map Messages.prevote (messages r.prevote) ++ map Messages.precommit (messages r.precommit))

unfoldable pub catch_up_state : RemoteNode → State → State × List Task
unfolding current_round_state round_messages
catch_up_state node s =
    if consensus_height node == s.height
    then (let (r, t) = current_round_state s in (t, catch_up node (round_messages r) ∷ []))
    else (s, [])

-- `if (from && from.consensusHeight < height) { from.height = height - 1 }`, where the setter tells the
-- engine of the new height.
unfoldable pub note_height : ℕ → Option RemoteNode → State → Option RemoteNode × State × List Task
unfolding catch_up_state
note_height height none s = (none, s, [])
note_height height (some node) s =
    let raised = record node { height = height - 1 } in
    let (t, tasks) = catch_up_state raised s in
    if ltb (consensus_height node) height then (some raised, t, tasks) else (some node, s, [])

abbrev pub ignored : Option RemoteNode → List Task → State → Handled
ignored from tasks s = record { state = s; from = from; tasks = tasks; outcome = ok tt }

abbrev pub thrown : Option RemoteNode → List Task → State → Result (Unit {0}) → Handled
thrown from tasks s outcome = record { state = s; from = from; tasks = tasks; outcome = outcome }

module _ (c : Crypto) (genesis : Hash) (vs : ValidatorSet) where
  -- Is the signer the proposer?
  unfoldable pub is_by_proposer : ProposalMessage → Result Bool
  is_by_proposer m = do
    expected ← proposer vs m.proposal.height m.proposal.round
    signer ← signer_address c (Messages.proposal m) genesis
    ok (equals expected signer)

  unfoldable pub is_bad_lock : ProposalMessage → Bool
  is_bad_lock m = not (m.proposal.locked_round == 0) && leb m.proposal.round m.proposal.locked_round

  unfoldable pub record_proposal :
      ProposalMessage → Option RemoteNode → List Task → RoundState → State → Result Bool → Handled
  unfolding record_round
  record_proposal m from tasks r s (err e) = thrown from tasks s (err e)
  record_proposal m from tasks r s (ok false) = ignored from tasks s
  record_proposal m from tasks r s (ok true) =
      ignored from (tasks ++ (gossip (Messages.proposal m) ∷ []))
        (record_round m.proposal.round (record r { proposal = some m }) s)

  -- The proposal of the round is known, or it is not.
  unfoldable pub check_proposal :
      Option ProposalMessage
      → ProposalMessage
      → Option RemoteNode
      → List Task
      → RoundState
      → State
      → Handled
  unfolding is_bad_lock record_proposal is_by_proposer
  check_proposal (some known) m from tasks r s = ignored from tasks s
  check_proposal none m from tasks r s =
      if is_bad_lock m
      then ignored from tasks s
      else record_proposal m from tasks r s (is_by_proposer m)

  unfoldable pub handle_proposal : ProposalMessage → Option RemoteNode → State → Handled
  unfolding note_height check_proposal round_state_of
  handle_proposal m from s =
      let (noted, s', tasks) = note_height m.proposal.height from s in
      let (r, t) = round_state_of m.proposal.round s' in
      if not (m.proposal.height == s'.height) || ltb m.proposal.round s'.round
      then ignored noted tasks s'
      else check_proposal r.proposal m noted tasks r t

  abbrev pub after_add : List Task → List Task → Result (Unit {0}) → List Task
  after_add tasks later (ok done) = tasks ++ later
  after_add tasks later (err e) = tasks

  -- What follows signerAddress. An add that throws has recorded the message.
  unfoldable pub record_prevote :
      VoteMessage → Option RemoteNode → List Task → State → Result Address → Handled
  unfolding record_round
  record_prevote m from tasks s (err e) = thrown from tasks s (err e)
  record_prevote m from tasks s (ok address) =
      let (r, t) = round_state_of m.vote.round s in
      let (votes, outcome) = add t.validator_set address m r.prevote in
      if has address r.prevote
      then ignored from tasks t
      else thrown from
          (after_add tasks
            (gossip (Messages.prevote m)
              ∷ check_prevotes_skip m.vote.height m.vote.round
              ∷ check_valid m.vote.height m.vote.round
              ∷ [])
            outcome)
          (record_round m.vote.round (record r { prevote = votes }) t) outcome

  unfoldable pub handle_prevote : VoteMessage → Option RemoteNode → State → Handled
  unfolding note_height record_prevote
  handle_prevote m from s =
      let (noted, s', tasks) = note_height m.vote.height from s in
      if not (m.vote.height == s'.height)
      then ignored noted tasks s'
      else record_prevote m noted tasks s' (signer_address c (Messages.prevote m) genesis)

  unfoldable pub record_precommit :
      VoteMessage → Option RemoteNode → List Task → State → Result Address → Handled
  unfolding record_round
  record_precommit m from tasks s (err e) = thrown from tasks s (err e)
  record_precommit m from tasks s (ok address) =
      let (r, t) = round_state_of m.vote.round s in
      let (votes, outcome) = add t.validator_set address m r.precommit in
      if has address r.precommit
      then ignored from tasks t
      else thrown from
          (after_add tasks
            (gossip (Messages.precommit m) ∷ check_precommits_skip m.vote.height m.vote.round ∷ [])
            outcome)
          (record_round m.vote.round (record r { precommit = votes }) t) outcome

  unfoldable pub handle_precommit : VoteMessage → Option RemoteNode → State → Handled
  unfolding note_height record_precommit
  handle_precommit m from s =
      let (noted, s', tasks) = note_height m.vote.height from s in
      if not (m.vote.height == s'.height)
      then ignored noted tasks s'
      else record_precommit m noted tasks s' (signer_address c (Messages.precommit m) genesis)

  unfoldable pub new_consensus_message : ConsensusMessage → Option RemoteNode → State → Handled
  unfolding handle_proposal handle_prevote handle_precommit
  new_consensus_message (Messages.proposal m) from s = handle_proposal m from s
  new_consensus_message (Messages.prevote m) from s = handle_prevote m from s
  new_consensus_message (Messages.precommit m) from s = handle_precommit m from s
