-- ===== src/ChainCore/Duties.antt =====
-- packages/chain-core/src/consensus-engine/index.ts: the beginning of a round, and the messages that a
-- validator sends. The key pair is the private key, `none` where there is none. What the engine
-- reads of others is an argument: the transactions that the pool selects, the application's hash in
-- the header before, the chain's blocks and the clock.
pub mod Turns
use uniqys_kit.Prelude.{
  ℕ, ◌==◌, Bool, true, false, not, Option, none, some, get_or, List, [], ◌∷◌, map, ◌⊎◌, inl, inr,
  if◌then◌else◌, Result, ok, err, ◌>>=◌,
}
use uniqys_kit.Types.FixedBytes.{Bytes, equals}
use uniqys_kit.Types.Optional.{is_none}
use uniqys_kit.Signature.{Hash, Address, Crypto}
use uniqys_kit.Signature.Keys.{hash_zero, key_pair_address}
use uniqys_kit.Blockchain.Transaction.{TransactionList}
use uniqys_kit.Blockchain.Validators.{ValidatorSet, proposer, exists, set_hash}
use uniqys_kit.Blockchain.Votes.{Vote, Consensus, type_prevote, type_precommit}
use uniqys_kit.Blockchain.Blocks.{Block, BlockHeader}
use uniqys_kit.Blockchain.Messages.{
  Proposal, ProposalMessage, VoteMessage, sign_proposal, sign_vote,
}
use uniqys_kit.ChainCore.State.{
  State, RoundState, Step, new_round_step, propose_step, prevote_step, prevote_wait_step,
  precommit_step, precommit_wait_step, committed_step, current_round_state,
}
use uniqys_kit.ChainCore.Engine.{Effect, do_propose, do_prevote_or_wait, do_precommit_or_wait}
use uniqys_kit.ChainCore.Handlers.{
  Handled, ignored, thrown, handle_proposal, handle_prevote, handle_precommit,
}
use uniqys_kit.ChainCore.Proposals.{proposed_block}

-- What enterPropose does: it sends a proposal of the transactions, or waits for one.
pub data Entry : Type 0 where
  send_proposal_of : TransactionList → Entry
  propose_timeout : ℕ → ℕ → Entry

abbrev pub own_address : Crypto → Option Bytes → Result (Option Address)
own_address c none = ok none
own_address c (some private_key) = do address ← key_pair_address c private_key; ok (some address)

abbrev pub is_own : Address → Option Address → Bool
is_own expected none = false
is_own expected (some address) = equals expected address

module _ (c : Crypto) (vs : ValidatorSet) (key : Option Bytes) where
  unfoldable pub exists_own : Option Address → Bool
  exists_own none = false
  exists_own (some address) = exists vs address

  unfoldable pub is_validator : Result Bool
  unfolding exists_own
  is_validator = do address ← own_address c key; ok (exists_own address)

  -- `this.isValidator && this.validatorSet.proposer(height, round).equals(this.keyPair.address)`
  unfoldable pub is_own_turn : State → Result Bool
  is_own_turn s = do
    validator ← is_validator
    address ← own_address c key
    let turn : Result Bool = do
      expected ← proposer vs s.height s.round
      ok (is_own expected address)
    if validator then turn else ok false

  unfoldable pub enter_by_turn :
      Option TransactionList → Option TransactionList → State → Bool → State × List Entry
  enter_by_turn selected (some transactions) s true =
      (record s { step = propose_step }, send_proposal_of transactions ∷ [])
  enter_by_turn selected none s true =
      (record s { step = propose_step }, send_proposal_of (get_or selected []) ∷ [])
  enter_by_turn selected transactions s false =
      (record s { step = propose_step }, propose_timeout s.height s.round ∷ [])

  -- `selected` is what selectTransactions returns.
  unfoldable pub enter_propose :
      Option TransactionList → Option TransactionList → State → Result (State × List Entry)
  enter_propose selected transactions s = do
    own ← is_own_turn s
    ok (enter_by_turn selected transactions s own)

  unfoldable pub enter_selected : Option TransactionList → State → Result (State × List Entry)
  enter_selected none s = ok (s, [])
  enter_selected (some transactions) s = enter_propose none (some transactions) s

  -- The last three tests of doNewRound. `last` is the application's hash in the block before.
  unfoldable pub enter_if_needed :
      Option TransactionList → Result Hash → State → Result (State × List Entry)
  enter_if_needed selected last s = do
    last_app_state_hash ← last
    set_root ← set_hash c vs
    let enter = enter_propose selected none s
    (if not (equals s.app_state_hash last_app_state_hash)
        then enter
        else if not (equals s.next_validator_set_root set_root)
        then enter
        else enter_selected selected s)

  unfoldable pub do_new_round :
      Option TransactionList → Result Hash → State → Result (State × List Entry)
  do_new_round selected last s =
      let (r, t) = current_round_state s in
      if not (is_none r.proposal)
      then ok (record t { step = propose_step }, [])
      else if not (is_none t.valid_block)
      then enter_propose selected none t
      else if t.height == 1
      then enter_propose selected none t
      else enter_if_needed selected last t

-- What a step of the loop starts: a proposal or its timeout, or what the other steps ask for.
module _ (c : Crypto) (vs : ValidatorSet) (key : Option Bytes) (hash_of : Block → Hash) where
  abbrev pub asking : State × List Effect → Result (State × List (Entry ⊎ Effect))
  asking (s, effects) = ok (s, map inr effects)

  -- The switch of proceedConsensus.
  unfoldable pub proceed_at :
      Step → Option TransactionList → Result Hash → State → Result (State × List (Entry ⊎ Effect))
  proceed_at new_round_step selected last s = do
    (t, entries) ← do_new_round c vs key selected last s
    ok (t, map inl entries)
  proceed_at propose_step selected last s = asking (do_propose hash_of s)
  proceed_at prevote_step selected last s = asking (do_prevote_or_wait hash_of s)
  proceed_at prevote_wait_step selected last s = asking (do_prevote_or_wait hash_of s)
  proceed_at precommit_step selected last s = asking (do_precommit_or_wait hash_of s)
  proceed_at precommit_wait_step selected last s = asking (do_precommit_or_wait hash_of s)
  proceed_at committed_step selected last s = ok (s, [])

  unfoldable pub proceed_consensus :
      Option TransactionList → Result Hash → State → Result (State × List (Entry ⊎ Effect))
  unfolding proceed_at
  proceed_consensus selected last s = proceed_at s.step selected last s

-- A handler of an own message, where the message can be made.
abbrev pub handled_or {ℓ} :
    {Message : Type ℓ} → State → (Message → Handled) → Result Message → Handled
handled_or s handle (err e) = thrown none [] s (err e)
handled_or s handle (ok m) = handle m

-- `if (!this.isValidator) return`
unfoldable pub by_validator : (Bytes → Handled) → State → Option Bytes → Result Bool → Handled
by_validator act s key (err e) = thrown none [] s (err e)
by_validator act s none (ok validator) = ignored none [] s
by_validator act s (some private_key) (ok true) = act private_key
by_validator act s (some private_key) (ok false) = ignored none [] s

module _ (c : Crypto) (genesis : Hash) (vs : ValidatorSet) where
  unfoldable pub own_proposal : State → Bytes → Block → Result ProposalMessage
  own_proposal s private_key block =
      sign_proposal c
        (record { height = s.height; round = s.round; locked_round = s.valid_round; block = block })
        genesis private_key

  unfoldable pub propose_block : State → Result Block → Bytes → Handled
  unfolding own_proposal
  propose_block s block private_key =
      handled_or s (λ m. handle_proposal c genesis vs m none s)
        (do b ← block; own_proposal s private_key b)

  unfoldable pub send_proposal_message :
      Option Bytes → Block → BlockHeader → Consensus → ℕ → TransactionList → State → Handled
  unfolding by_validator propose_block
  send_proposal_message key genesis_block last last_consensus now transactions s =
      by_validator
        (propose_block s
          (proposed_block c s genesis_block last last_consensus now transactions s.valid_block))
        s key (is_validator c vs key)

  -- `blockHash.match(hash => hash, () => Hash.zero)`
  unfoldable pub own_vote : State → Option Hash → Vote
  own_vote s choice = record {
    height = s.height;
    round = s.round;
    block_hash = get_or choice hash_zero;
  }

  unfoldable pub prevote_by : State → Option Hash → Bytes → Handled
  unfolding own_vote
  prevote_by s choice private_key =
      handled_or s (λ m. handle_prevote c genesis vs m none s)
        (sign_vote c type_prevote (own_vote s choice) genesis private_key)

  unfoldable pub send_prevote_message : Option Bytes → Option Hash → State → Handled
  unfolding by_validator prevote_by
  send_prevote_message key choice s =
      by_validator (prevote_by s choice) s key (is_validator c vs key)

  unfoldable pub precommit_by : State → Option Hash → Bytes → Handled
  unfolding own_vote
  precommit_by s choice private_key =
      handled_or s (λ m. handle_precommit c genesis vs m none s)
        (sign_vote c type_precommit (own_vote s choice) genesis private_key)

  unfoldable pub send_precommit_message : Option Bytes → Option Hash → State → Handled
  unfolding by_validator precommit_by
  send_precommit_message key choice s =
      by_validator (precommit_by s choice) s key (is_validator c vs key)
