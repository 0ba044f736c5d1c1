-- ===== src/ChainCore/Duties/Turns.antt =====
-- packages/chain-core/src/consensus-engine/index.ts: a proposer accepts and sends on its own proposal.
use uniqys_kit.Prelude.{
  ℕ, ◌==◌, ==-refl, ◌<◌, ◌≡◌, refl, ◌∙◌, sym, ap, Bool, true, false, ◌||◌, not, Option, none, some,
  List, [], ◌∷◌, if◌then◌else◌, ltb, Result, ok, err, ◌>>=◌, >>=-eq-ok, ok-injective, Bool-cases,
  inl, inr, arith, subst,
}
use uniqys_kit.Types.FixedBytes.{Bytes, equals}
use uniqys_kit.Signature.{Hash, Address, Crypto}
use uniqys_kit.Signature.Keys
use uniqys_kit.Signature.Keys.{key_pair_address}
use uniqys_kit.Signature.Recovery.{address-sign}
use uniqys_kit.Blockchain.Transaction.{TransactionList}
use uniqys_kit.Blockchain.Validators.{ValidatorSet, proposer}
use uniqys_kit.Blockchain.Votes.{Consensus}
use uniqys_kit.Blockchain.Blocks.{Block, BlockHeader}
use uniqys_kit.Blockchain.Messages
use uniqys_kit.Blockchain.Messages.{
  Proposal, ProposalMessage, proposal_digest, sign_proposal, signer_address,
}
use uniqys_kit.ChainCore.State.{
  State, RoundState, find_round, add_round, round_state_of, current_round_state,
}
use uniqys_kit.ChainCore.Handlers.{
  gossip, Handled, set_round, record_round, note_height, is_by_proposer, is_bad_lock,
  record_proposal, check_proposal, handle_proposal,
}
use uniqys_kit.ChainCore.Proposals.{proposed_block}
use uniqys_kit.ChainCore.Duties.{
  is_own, is_validator, is_own_turn, by_validator, own_proposal, propose_block,
  send_proposal_message,
}

-- The state of a round is found once it has been set.
find_round-set_round :
    (n : ℕ) (r : RoundState) (rounds : List (ℕ × RoundState))
    → find_round n (set_round n r rounds) ≡ some r
unfolding find_round set_round
find_round-set_round n r [] = rw (==-refl n)
find_round-set_round n r ((k, x) ∷ rounds) = elim (Bool-cases (k == n)) [
  | inl same ↦ rw (same, same)
  | inr other ↦ rw (other, other) (find_round-set_round n r rounds)
]

turn_parts :
    (validator : Result Bool) (own expected : Result Address)
    → (do
      v ← validator
      a ← (do x ← own; ok (some x))
      (if v then (do p ← expected; ok (is_own p a)) else ok false))
      ≡ ok true
    → (a : Address) × (p : Address) × (validator ≡ ok true)
      × (own ≡ ok a)
      × (expected ≡ ok p)
      × (equals p a ≡ true)
turn_parts (ok true) (ok a) (ok p) e = (a, p, refl, refl, refl, ok-injective e)
turn_parts (ok true) (ok a) (err x) e = cc
turn_parts (ok true) (err x) p e = cc
turn_parts (ok false) (ok a) p e = cc
turn_parts (ok false) (err x) p e = cc
turn_parts (err x) a p e = cc

module _ (c : Crypto) (genesis : Hash) (vs : ValidatorSet) where
  -- The signer of a signed proposal is the owner of the key.
  signer-sign_proposal :
      (p : Proposal) (key : Bytes) (m : ProposalMessage)
      → sign_proposal c p genesis key ≡ ok m
      → (m.proposal ≡ p) × (signer_address c (Messages.proposal m) genesis ≡ key_pair_address c key)
  unfolding sign_proposal signer_address
  signer-sign_proposal p key m e =
      let (digest, e₁, e₂) = >>=-eq-ok (proposal_digest c p genesis) _ e in
      let (sign, e₃, e₄) = >>=-eq-ok (Keys.sign c digest key) _ e₂ in
      let (s, signed, valid, recovered) = address-sign c digest key in
      let same : s ≡ sign = ok-injective (sym signed ∙ e₃) in
      subst
        (λ (m : ProposalMessage).
          (m.proposal ≡ p)
          × (signer_address c (Messages.proposal m) genesis ≡ key_pair_address c key))
        (ok-injective e₄) (refl, rw e₁ (rw (← same) recovered))

  -- What the handler leaves where it takes the message.
  pub record IsTaken (m : ProposalMessage) (h : Handled) : Type 0 where
    pub outcome : h.outcome ≡ ok tt
    pub sent : h.tasks ≡ gossip (Messages.proposal m) ∷ []
    pub known : (current_round_state h.state).0.proposal ≡ some m

  round_state_of-round : (n : ℕ) (s : State) → (round_state_of n s).1.round ≡ s.round
  unfolding round_state_of add_round
  round_state_of-round n s = ground arith

  recorded-known :
      (m : ProposalMessage) (n : ℕ) (r : RoundState) (s : State)
      → n ≡ s.round
      → r.proposal ≡ some m
      → (current_round_state (record_round n r s)).0.proposal ≡ some m
  unfolding current_round_state record_round round_state_of add_round
  recorded-known m n r s round e = rw round (rw (find_round-set_round s.round r s.rounds) e)

  check_proposal-IsTaken :
      (m : ProposalMessage) (o : Option ProposalMessage) (r : RoundState) (s : State)
      → m.proposal.round ≡ s.round
      → is_bad_lock c genesis vs m ≡ false
      → o ≡ none
      → is_by_proposer c genesis vs m ≡ ok true
      → IsTaken m (check_proposal c genesis vs o m none [] r s)
  unfolding check_proposal record_proposal
  check_proposal-IsTaken m o r s round lock new by =
      rw (new, lock, by)
        (record {
          outcome = refl;
          sent = refl;
          known = recorded-known m m.proposal.round (record r { proposal = some m }) s round refl;
        })

  handle_proposal-IsTaken :
      (m : ProposalMessage) (s : State)
      → m.proposal.height ≡ s.height
      → m.proposal.round ≡ s.round
      → m.proposal.locked_round < s.round
      → (round_state_of m.proposal.round s).0.proposal ≡ none
      → is_by_proposer c genesis vs m ≡ ok true
      → IsTaken m (handle_proposal c genesis vs m none s)
  unfolding handle_proposal note_height
  handle_proposal-IsTaken m s height round lock new by =
      let opened = round_state_of m.proposal.round s in
      let now : (not (m.proposal.height == s.height) || ltb m.proposal.round s.round) ≡ false =
        ground arith in
      let free : is_bad_lock c genesis vs m ≡ false = unfold is_bad_lock in ground arith in
      rw now (
        check_proposal-IsTaken m opened.0.proposal opened.0 opened.1
          (round ∙ sym (round_state_of-round m.proposal.round s)) free new by)

  -- What it takes to be the proposer.
  own_turn :
      (private_key : Bytes) (s : State)
      → is_own_turn c vs (some private_key) s ≡ ok true
      → (a : Address) × (p : Address) × (is_validator c vs (some private_key) ≡ ok true)
        × (key_pair_address c private_key ≡ ok a)
        × (proposer vs s.height s.round ≡ ok p)
        × (equals p a ≡ true)
  unfolding is_own_turn
  own_turn private_key s e =
      let (a, p, valid, own, expected, same) =
        turn_parts (is_validator c vs (some private_key)) (key_pair_address c private_key)
          (proposer vs s.height s.round) e in
      (a, p, valid, own, expected, same)

  is_by_proposer_lem :
      (m : ProposalMessage) (s : State) (p a : Address)
      → m.proposal.height ≡ s.height
      → m.proposal.round ≡ s.round
      → proposer vs s.height s.round ≡ ok p
      → signer_address c (Messages.proposal m) genesis ≡ ok a
      → equals p a ≡ true
      → is_by_proposer c genesis vs m ≡ ok true
  unfolding is_by_proposer
  is_by_proposer_lem m s p a height round expected signer same =
      let here : proposer vs m.proposal.height m.proposal.round ≡ ok p = cc in
      rw (here, signer, same) refl

  -- A proposer that has no proposal for the round yet and makes one, the block being valid in an
  -- earlier round or in none, takes its own proposal, records it for the round, and sends it on.
  pub send_proposal_message-IsTaken :
      (private_key : Bytes) (genesis_block : Block) (last : BlockHeader)
      (last_consensus : Consensus) (now : ℕ) (transactions : TransactionList) (s : State)
      (block : Block) (m : ProposalMessage)
      → proposed_block c s genesis_block last last_consensus now transactions s.valid_block
        ≡ ok block
      → own_proposal c genesis vs s private_key block ≡ ok m
      → is_own_turn c vs (some private_key) s ≡ ok true
      → s.valid_round < s.round
      → (current_round_state s).0.proposal ≡ none
      → IsTaken m (
          send_proposal_message c genesis vs
            (some private_key)
            genesis_block
            last
            last_consensus
            now
            transactions
            s)
  unfolding send_proposal_message by_validator propose_block own_proposal current_round_state
  send_proposal_message-IsTaken private_key genesis_block last last_consensus now transactions s
        block m made signed turn valid new =
      let (a, p, validator, own, expected, same) = own_turn private_key s turn in
      let (is_proposal, signer) = signer-sign_proposal _ private_key m signed in
      let height = ap (λ (q : Proposal). q.height) is_proposal in
      let round = ap (λ (q : Proposal). q.round) is_proposal in
      let taken =
        handle_proposal-IsTaken m s height round
          (omega (arith, valid, ap (λ (q : Proposal). q.locked_round) is_proposal))
          (subst (λ n. (round_state_of n s).0.proposal ≡ none) (sym round) new)
          (is_by_proposer_lem m s p a height round expected (signer ∙ own) same) in
      rw (validator, made, signed) taken
