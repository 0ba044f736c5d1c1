-- ===== src/ChainCore/Handlers/Recorded.antt =====
-- packages/chain-core/src/consensus-engine/index.ts: what is recorded in the states of the rounds,
-- whatever messages come.
pub mod Handled
use uniqys_kit.Prelude.{
  ℕ, ◌-◌, ◌==◌, ◌<◌, ◌≡◌, ◌⊎◌, inl, inr, refl, Bool, true, false, ◌||◌, not, Option, none, some,
  List, [], ◌∷◌, ltb, Result, ok, err, Bool-cases, arith, subst, sym, ==→eq,
}
use uniqys_kit.Signature.{Hash, Address, Crypto}
use uniqys_kit.Blockchain.Validators.{ValidatorSet}
use uniqys_kit.Blockchain.Messages
use uniqys_kit.Blockchain.Messages.{ProposalMessage, VoteMessage, ConsensusMessage, signer_address}
use uniqys_kit.ChainCore.VoteSet.{has, add}
use uniqys_kit.ChainCore.VoteSet.Tally.{IsTallied, new_vote_set-IsTallied, add-IsTallied}
use uniqys_kit.ChainCore.Nodes.{RemoteNode, consensus_height}
use uniqys_kit.ChainCore.State.{
  State, RoundState, new_round_state, find_round, add_round, round_state_of, current_round_state,
}
use uniqys_kit.ChainCore.Handlers.{
  Task, set_round, record_round, catch_up_state, note_height, is_by_proposer, is_bad_lock,
  record_proposal, check_proposal, handle_proposal, record_prevote, handle_prevote,
  record_precommit, handle_precommit, new_consensus_message,
}

module _ (c : Crypto) (genesis : Hash) (vs : ValidatorSet) where
  -- A proposal of this height and round, signed by the proposer, with no lock or an earlier one.
  abbrev pub IsProposal : ℕ → ℕ → Option ProposalMessage → Type 0
  IsProposal height round none = Unit
  IsProposal height round (some m) =
      (m.proposal.height ≡ height)
      × (m.proposal.round ≡ round)
      × ((m.proposal.locked_round ≡ 0) ⊎ (m.proposal.locked_round < round))
      × (is_by_proposer c genesis vs m ≡ ok true)

  pub record IsRound (height : ℕ) (voters : ValidatorSet) (round : ℕ) (r : RoundState)
      : Type 0 where
    pub proposal : IsProposal height round r.proposal
    pub prevote : IsTallied voters r.prevote
    pub precommit : IsTallied voters r.precommit

  abbrev pub AreRounds : ℕ → ValidatorSet → List (ℕ × RoundState) → Type 0
  AreRounds height voters [] = Unit
  AreRounds height voters ((round, r) ∷ rounds) =
      IsRound height voters round r × AreRounds height voters rounds

  abbrev pub IsRecorded : State → Type 0
  IsRecorded s = AreRounds s.height s.validator_set s.rounds

  empty-IsRound :
      (height : ℕ) (voters : ValidatorSet) (round : ℕ) → IsRound height voters round new_round_state
  unfolding new_round_state
  empty-IsRound height voters round = record {
    proposal = tt;
    prevote = new_vote_set-IsTallied voters;
    precommit = new_vote_set-IsTallied voters;
  }

  found : (x r : RoundState) → some x ≡ some r → x ≡ r
  found x r e = cc

  find_round-IsRound :
      (height : ℕ) (voters : ValidatorSet) (n : ℕ) (rounds : List (ℕ × RoundState)) (r : RoundState)
      → AreRounds height voters rounds
      → find_round n rounds ≡ some r
      → IsRound height voters n r
  unfolding find_round
  find_round-IsRound height voters n [] r h e = cc
  find_round-IsRound height voters n ((k, x) ∷ rounds) r h e = elim (Bool-cases (k == n)) [
    | inl same ↦
        subst (IsRound height voters n) (found x r (rw same at e))
          (subst (λ i. IsRound height voters i x) (==→eq k n same) h.0)
    | inr other ↦ find_round-IsRound height voters n rounds r h.1 (rw other at e)
  ]

  pub set_round-AreRounds :
      (height : ℕ) (voters : ValidatorSet) (n : ℕ) (r : RoundState) (rounds : List (ℕ × RoundState))
      → IsRound height voters n r
      → AreRounds height voters rounds
      → AreRounds height voters (set_round n r rounds)
  unfolding set_round
  set_round-AreRounds height voters n r [] new h = (new, tt)
  set_round-AreRounds height voters n r ((k, x) ∷ rounds) new h = elim (Bool-cases (k == n)) [
    | inl same ↦ rw same (subst (λ i. IsRound height voters i r) (sym (==→eq k n same)) new, h.1)
    | inr other ↦ rw other (h.0, set_round-AreRounds height voters n r rounds new h.1)
  ]

  -- What roundStateOf returns, and leaves.
  abbrev pub IsOpened : ℕ → RoundState × State → Type 0
  IsOpened n (r, t) = IsRound t.height t.validator_set n r × IsRecorded t

  add_round-IsOpened :
      (n : ℕ) (o : Option RoundState) (s : State)
      → find_round n s.rounds ≡ o
      → IsRecorded s
      → IsOpened n (add_round n o s)
  unfolding add_round
  add_round-IsOpened n (some r) s e h =
      (find_round-IsRound s.height s.validator_set n s.rounds r h e, h)
  add_round-IsOpened n none s e h =
      let empty = empty-IsRound s.height s.validator_set n in (empty, (empty, h))

  pub round_state_of-IsOpened : (n : ℕ) (s : State) → IsRecorded s → IsOpened n (round_state_of n s)
  unfolding round_state_of
  round_state_of-IsOpened n s h = add_round-IsOpened n (find_round n s.rounds) s refl h

  catch_up_state-IsRecorded :
      (node : RemoteNode) (s : State) → IsRecorded s → IsRecorded (catch_up_state node s).0
  unfolding catch_up_state current_round_state
  catch_up_state-IsRecorded node s h = elim (Bool-cases (consensus_height node == s.height)) [
    | inl same ↦ rw same (round_state_of-IsOpened s.round s h).1
    | inr other ↦ rw other h
  ]

  pub note_height-IsRecorded :
      (height : ℕ) (from : Option RemoteNode) (s : State)
      → IsRecorded s
      → IsRecorded (note_height height from s).1
  unfolding note_height
  note_height-IsRecorded height none s h = h
  note_height-IsRecorded height (some node) s h =
      elim (Bool-cases (ltb (consensus_height node) height)) [
        | inl lower ↦ rw lower (catch_up_state-IsRecorded (record node { height = height - 1 }) s h)
        | inr other ↦ rw other h
      ]

  is_bad_lock-earlier :
      (m : ProposalMessage)
      → is_bad_lock c genesis vs m ≡ false
      → (m.proposal.locked_round ≡ 0) ⊎ (m.proposal.locked_round < m.proposal.round)
  unfolding is_bad_lock
  is_bad_lock-earlier m e = elim (Bool-cases (m.proposal.locked_round == 0)) [
    | inl free ↦ inl (==→eq _ 0 free)
    | inr held ↦ inr (ground arith)
  ]

  record_proposal-IsRecorded :
      (m : ProposalMessage) (from : Option RemoteNode) (tasks : List Task) (r : RoundState)
      (s : State) (signed : Result Bool)
      → m.proposal.height ≡ s.height
      → is_bad_lock c genesis vs m ≡ false
      → is_by_proposer c genesis vs m ≡ signed
      → IsOpened m.proposal.round (r, s)
      → IsRecorded (record_proposal c genesis vs m from tasks r s signed).state
  unfolding record_proposal record_round
  record_proposal-IsRecorded m from tasks r s (err e) height lock by h = h.1
  record_proposal-IsRecorded m from tasks r s (ok false) height lock by h = h.1
  record_proposal-IsRecorded m from tasks r s (ok true) height lock by h =
      set_round-AreRounds s.height s.validator_set m.proposal.round (record r { proposal = some m })
        s.rounds
        (record {
          proposal = (height, refl, is_bad_lock-earlier m lock, by);
          prevote = h.0.prevote;
          precommit = h.0.precommit;
        })
        h.1

  pub check_proposal-IsRecorded :
      (m : ProposalMessage) (from : Option RemoteNode) (tasks : List Task)
      (o : Option ProposalMessage) (r : RoundState) (s : State)
      → m.proposal.height ≡ s.height
      → IsOpened m.proposal.round (r, s)
      → IsRecorded (check_proposal c genesis vs o m from tasks r s).state
  unfolding check_proposal
  check_proposal-IsRecorded m from tasks (some known) r s height h = h.1
  check_proposal-IsRecorded m from tasks none r s height h =
      elim (Bool-cases (is_bad_lock c genesis vs m)) [
        | inl bad ↦ rw bad h.1
        | inr lock ↦ rw lock (
            record_proposal-IsRecorded m from tasks r s (is_by_proposer c genesis vs m) height lock
              refl h)
      ]
