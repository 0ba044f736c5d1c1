-- ===== src/ChainCore/Engine/Locking.antt =====
-- packages/chain-core/src/consensus-engine/index.ts: the rules of locking, and what the steps keep.
use uniqys_kit.Prelude.{
  ◌≢◌, ℕ, ◌≤◌, ◌≡◌, refl, sym, ◌∙◌, Bool, true, false, Option, none, some, List, [], ◌∷◌,
  if◌then◌else◌, ◌==◌, ltb, leb, ◌&&◌, ◌||◌, not, leb→le, ==→eq, subst, Bool-cases, inl, inr,
  Option-cases,
}
use uniqys_kit.Types.FixedBytes.{equals, equals→eq}
use uniqys_kit.Signature.{Hash}
use uniqys_kit.Signature.Keys.{hash_zero}
use uniqys_kit.Blockchain.Votes.{Vote}
use uniqys_kit.Blockchain.Blocks.{Block}
use uniqys_kit.Blockchain.Messages.{Proposal, ProposalMessage}
use uniqys_kit.ChainCore.VoteSet.{VoteSet}
use uniqys_kit.ChainCore.State.{State, prevote_step, round_state_of, current_round_state, same_step}
use uniqys_kit.ChainCore.Engine.{
  Effect, send_prevote, send_precommit, is_block, is_majority_for, is_proposed, prevote_for,
  unlock_by, decide_prevote, propose_on, do_propose, wait_prevote, precommit_for, lock_proposal,
  on_prevotes, do_prevote_or_wait,
}

module _ (hash_of : Block → Hash) where
  -- When a prevote for a block is allowed: without a lock, for the locked block, or for a block that
  -- had two thirds of the prevotes in a round that is not before that of the lock.
  pub data MayPrevote (hash : Hash) (proposal : Proposal) (s : State) : Type 0 where
    not_locked : s.locked_round ≡ 0 → MayPrevote hash proposal s
    locked_on : is_block hash_of hash s.locked_block ≡ true → MayPrevote hash proposal s
    released :
        s.locked_round ≤ proposal.locked_round
        → is_majority_for hash_of hash
            (round_state_of proposal.locked_round s).0.prevote.two_thirds_majority
          ≡ true
        → MayPrevote hash proposal s

  chosen_hash : {x y : Hash} → send_prevote (some x) ∷ [] ≡ send_prevote (some y) ∷ [] → y ≡ x
  chosen_hash h = cc

  unlock_by-MayPrevote :
      (proposal : Proposal) (s : State) (hash : Hash)
      → (unlock_by hash_of proposal s).1 ≡ send_prevote (some hash) ∷ []
      → MayPrevote (hash_of proposal.block) proposal s × (hash ≡ hash_of proposal.block)
  unfolding unlock_by prevote_for
  unlock_by-MayPrevote proposal s hash h =
      let majority =
        is_majority_for hash_of (hash_of proposal.block)
          (round_state_of proposal.locked_round s).0.prevote.two_thirds_majority in
      elim (Bool-cases (leb s.locked_round proposal.locked_round)) [
        | inr e ↦ let none_sent = rw e at h in cc
        | inl e ↦
            let h₁ = rw e at h in
            elim (Bool-cases majority) [
              | inr f ↦ let none_sent = rw f at h₁ in cc
              | inl f ↦ (released (leb→le _ _ e) f, chosen_hash (rw f at h₁))
            ]
      ]

  -- The branches of doPropose, by the three tests that it makes.
  by_branch :
      {R : Type 0} (ahead locked unlocked : Bool) (nil block rest : State × List Effect)
      (sent : List Effect)
      → (if ahead && not locked then nil else if unlocked || locked then block else rest).1 ≡ sent
      → (nil.1 ≡ sent → R)
      → (block.1 ≡ sent → unlocked ≡ true → R)
      → (block.1 ≡ sent → locked ≡ true → R)
      → (rest.1 ≡ sent → R)
      → R
  by_branch true true true nil block rest sent h f g k l = g h refl
  by_branch true true false nil block rest sent h f g k l = k h refl
  by_branch true false unlocked nil block rest sent h f g k l = f h
  by_branch false locked true nil block rest sent h f g k l = g h refl
  by_branch false true false nil block rest sent h f g k l = k h refl
  by_branch false false false nil block rest sent h f g k l = l h

  decide_prevote-MayPrevote :
      (proposal : Proposal) (s : State) (hash : Hash)
      → (decide_prevote hash_of proposal s).1 ≡ send_prevote (some hash) ∷ []
      → MayPrevote (hash_of proposal.block) proposal s × (hash ≡ hash_of proposal.block)
  unfolding decide_prevote prevote_for
  decide_prevote-MayPrevote proposal s hash h =
      by_branch (ltb proposal.locked_round s.locked_round)
        (is_block hash_of (hash_of proposal.block) s.locked_block) (s.locked_round == 0)
        (prevote_for hash_of none s) (prevote_for hash_of (some (hash_of proposal.block)) s)
        (unlock_by hash_of proposal s) (send_prevote (some hash) ∷ []) h (λ e. cc)
        (λ e z. (not_locked (==→eq _ _ z), chosen_hash e)) (λ e l. (locked_on l, chosen_hash e))
        (λ e. unlock_by-MayPrevote proposal s hash e)

  -- If doPropose sends a prevote for a block, that block is the one proposed in the current round,
  -- and the node is not locked, or is locked on that block, or the block had two thirds of the
  -- prevotes in the round that the proposal names, which is not before that of the lock.
  pub do_propose-MayPrevote :
      (s : State) (hash : Hash)
      → (do_propose hash_of s).1 ≡ send_prevote (some hash) ∷ []
      → (m : ProposalMessage) × ((current_round_state s).0.proposal ≡ some m)
        × (hash ≡ hash_of m.proposal.block)
        × MayPrevote hash m.proposal (current_round_state s).1
  unfolding do_propose propose_on
  do_propose-MayPrevote s hash h = elim (Option-cases (current_round_state s).0.proposal) [
    | inl e ↦ let none_sent = rw e at h in cc
    | inr (m, e) ↦
        let (may, same) =
          decide_prevote-MayPrevote m.proposal (current_round_state s).1 hash (rw e at h) in
        (m, e, same, subst (λ x. MayPrevote x m.proposal (current_round_state s).1) (sym same) may)
  ]

  -- What is known when a precommit for a block is sent.
  pub record Locks (hash : Hash) (majority : Option Vote) (proposal : Option ProposalMessage)
      (round : ℕ) (after : State) : Type 0 where
    pub message : ProposalMessage
    pub vote : Vote
    pub proposed : proposal ≡ some message
    pub prevoted : majority ≡ some vote
    pub for_block : vote.block_hash ≡ hash
    pub same : hash ≡ hash_of message.proposal.block
    pub locked_block : after.locked_block ≡ some message.proposal.block
    pub locked_round : after.locked_round ≡ round

  wait_sends_none :
      (prevote : VoteSet) (s : State) (hash : Hash)
      → (wait_prevote hash_of prevote s).1 ≢ send_precommit (some hash) ∷ []
  unfolding wait_prevote
  wait_sends_none prevote s hash h =
      elim (Bool-cases (same_step s.step prevote_step && prevote.two_thirds_any)) [
        | inl e ↦ let sent = rw e at h in cc
        | inr e ↦ let sent = rw e at h in cc
      ]

  same_choice : {x y : Hash} → send_precommit (some x) ∷ [] ≡ send_precommit (some y) ∷ [] → x ≡ y
  same_choice h = cc

  on_prevotes-Locks :
      (o : Option Vote) (p : Option ProposalMessage) (prevote precommit : VoteSet) (s : State)
      (hash : Hash)
      → (on_prevotes hash_of o
          (record { proposal = p; prevote = prevote; precommit = precommit })
          s).1
        ≡ send_precommit (some hash) ∷ []
      → Locks hash o p s.round
          (on_prevotes hash_of o
            (record { proposal = p; prevote = prevote; precommit = precommit })
            s).0
  unfolding on_prevotes precommit_for lock_proposal is_proposed
  on_prevotes-Locks none p prevote precommit s hash h = absurd (wait_sends_none prevote s hash h)
  on_prevotes-Locks (some vote) none prevote precommit s hash h =
      elim (Bool-cases (equals vote.block_hash hash_zero)) [
        | inl e ↦ let sent = rw e at h in cc
        | inr e ↦ absurd (wait_sends_none prevote s hash (rw e at h))
      ]
  on_prevotes-Locks (some vote) (some m) prevote precommit s hash h =
      elim (Bool-cases (equals vote.block_hash (hash_of m.proposal.block))) [
        | inl e ↦
            let same = same_choice (rw e at h) in
            record {
              message = m;
              vote = vote;
              proposed = refl;
              prevoted = refl;
              for_block = same;
              same = sym same ∙ equals→eq _ _ e;
              locked_block = rw e refl;
              locked_round = rw e refl;
            }
        | inr e ↦
            let h₁ = rw e at h in
            elim (Bool-cases (equals vote.block_hash hash_zero)) [
              | inl f ↦ let sent = rw f at h₁ in cc
              | inr f ↦ absurd (wait_sends_none prevote s hash (rw f at h₁))
            ]
      ]

  -- If doPrevoteOrWait sends a precommit for a block, two thirds of the prevotes of the current
  -- round are for it, it is the block proposed in that round, and the node is now locked on it
  -- there.
  pub do_prevote_or_wait-Locks :
      (s : State) (hash : Hash)
      → (do_prevote_or_wait hash_of s).1 ≡ send_precommit (some hash) ∷ []
      → Locks hash
          (current_round_state s).0.prevote.two_thirds_majority
          (current_round_state s).0.proposal
          (current_round_state s).1.round
          (do_prevote_or_wait hash_of s).0
  unfolding do_prevote_or_wait
  do_prevote_or_wait-Locks s hash h =
      let r = (current_round_state s).0 in
      on_prevotes-Locks r.prevote.two_thirds_majority r.proposal r.prevote r.precommit
        (current_round_state s).1 hash h
