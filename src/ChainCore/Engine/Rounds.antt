-- ===== src/ChainCore/Engine/Rounds.antt =====
-- packages/chain-core/src/consensus-engine/index.ts: what every state of the engine has, whatever
-- messages arrive and whenever its timeouts come.
use uniqys_kit.Prelude.{
  ℕ, ◌≤◌, ◌≡◌, ◌∙◌, refl, Bool, true, false, Option, none, some, List, if◌then◌else◌, arith,
}
use uniqys_kit.Types.FixedBytes.{equals}
use uniqys_kit.Signature.{Hash}
use uniqys_kit.Signature.Keys.{hash_zero}
use uniqys_kit.Blockchain.Votes.{Vote}
use uniqys_kit.Blockchain.Validators.{ValidatorSet}
use uniqys_kit.Blockchain.Blocks.{Block}
use uniqys_kit.Blockchain.Messages.{ProposalMessage}
use uniqys_kit.ChainCore.VoteSet.{VoteSet}
use uniqys_kit.ChainCore.State.{
  State, RoundState, Step, new_round, new_height, find_round, round_state_of, current_round_state,
}
use uniqys_kit.ChainCore.Engine.{
  Effect, is_proposed, do_propose, wait_prevote, precommit_for, lock_proposal, on_prevotes,
  do_prevote_or_wait, on_precommits, do_precommit_or_wait, on_propose_timeout, on_prevote_timeout,
  on_precommit_timeout, check_valid_block, check_round_skip,
}
use uniqys_kit.ChainCore.Engine.Kept.{
  Keeps, add_round-Keeps, trans-Keeps, step-Keeps, precommit-Keeps, timeouts-Keep, propose_on-Keeps,
  waits-Keep, on_precommits-Keeps, valid-Keeps, skip-Keeps,
}

-- The lock is of no later round than the current one, and there is a locked block if there is a lock.
pub data IsSound (s : State) : Type 0 where
  unlocked : s.locked_round ≡ 0 → s.locked_block ≡ none → 1 ≤ s.round → IsSound s
  locked :
      (block : Block)
      → 1 ≤ s.locked_round
      → s.locked_round ≤ s.round
      → s.locked_block ≡ some block
      → IsSound s

Keeps-IsSound : (s t : State) → Keeps s t → IsSound s → IsSound t
Keeps-IsSound s t k (unlocked r b n) =
    unlocked (k.locked_round ∙ r) (k.locked_block ∙ b) (omega (arith, k.round))
Keeps-IsSound s t k (locked block p r b) =
    locked block (omega (arith, p, k.locked_round)) (omega (arith, r, k.round, k.locked_round))
      (k.locked_block ∙ b)

module _ (hash_of : Block → Hash) where
  -- The states of the engine: a height begins, a step of the loop is made, a timeout comes, a message
  -- has been recorded in the states of the rounds, or others see to the step.
  pub data Reachable : State → Type 0 where
    begin :
        (height : ℕ) (app_state_hash : Hash) (vs : ValidatorSet) (next_root event_root : Hash)
        (s : State)
        → Reachable (new_height height app_state_hash vs next_root event_root s)
    recorded :
        {s : State} (rounds : List (ℕ × RoundState))
        → Reachable s
        → Reachable (record s { rounds = rounds })
    entered : {s : State} (step : Step) → Reachable s → Reachable (record s { step = step })
    proposed : {s : State} → Reachable s → Reachable (do_propose hash_of s).0
    prevoted : {s : State} → Reachable s → Reachable (do_prevote_or_wait hash_of s).0
    precommitted : {s : State} → Reachable s → Reachable (do_precommit_or_wait hash_of s).0
    propose_over :
        {s : State} (h r : ℕ) → Reachable s → Reachable (on_propose_timeout hash_of h r s).0
    prevote_over :
        {s : State} (h r : ℕ) → Reachable s → Reachable (on_prevote_timeout hash_of h r s).0
    precommit_over :
        {s : State} (h r : ℕ) → Reachable s → Reachable (on_precommit_timeout hash_of h r s).0
    saw_valid : {s : State} (h r : ℕ) → Reachable s → Reachable (check_valid_block hash_of h r s)
    skipped :
        {s : State} (h r : ℕ) (votes : VoteSet)
        → Reachable s
        → Reachable (check_round_skip hash_of h r votes s)

  if-IsSound :
      (b : Bool) (x y : State × List Effect)
      → IsSound x.0
      → IsSound y.0
      → IsSound (if b then x else y).0
  if-IsSound true x y h k = h
  if-IsSound false x y h k = k

  round_positive : (s : State) → IsSound s → 1 ≤ s.round
  round_positive s (unlocked r b n) = n
  round_positive s (locked block p r b) = omega (arith, p, r)

  lock_proposal-IsSound :
      (p : Option ProposalMessage) (s : State) → IsSound s → IsSound (lock_proposal hash_of p s)
  unfolding lock_proposal
  lock_proposal-IsSound none s h = h
  lock_proposal-IsSound (some m) s h =
      locked m.proposal.block (round_positive s h) (omega arith) refl

  on_prevotes-IsSound :
      (o : Option Vote) (r : RoundState) (s : State)
      → IsSound s
      → IsSound (on_prevotes hash_of o r s).0
  unfolding on_prevotes
  on_prevotes-IsSound none r s h =
      Keeps-IsSound s (wait_prevote hash_of r.prevote s).0 (waits-Keep hash_of r.prevote s).0 h
  on_prevotes-IsSound (some vote) r s h =
      let zero_hash = equals vote.block_hash hash_zero in
      let t = lock_proposal hash_of r.proposal s in
      let choice = precommit_for hash_of (some vote.block_hash) t in
      let nil = precommit_for hash_of none s in
      let wait = wait_prevote hash_of r.prevote s in
      if-IsSound (is_proposed hash_of vote.block_hash r.proposal) choice
        (if zero_hash then nil else wait)
        (Keeps-IsSound t choice.0 (precommit-Keeps hash_of (some vote.block_hash) t)
          (lock_proposal-IsSound r.proposal s h))
        (if-IsSound zero_hash nil wait (Keeps-IsSound s nil.0 (precommit-Keeps hash_of none s) h)
          (Keeps-IsSound s wait.0 (waits-Keep hash_of r.prevote s).0 h))

  -- In every reachable state, the round is at least 1, and either there is no lock and no locked
  -- block, or there are both, and the lock is of no later round than the current one.
  pub Reachable-IsSound : {s : State} → Reachable s → IsSound s
  unfolding new_height new_round current_round_state round_state_of do_propose do_prevote_or_wait
      do_precommit_or_wait
  Reachable-IsSound (begin h a vs n e s) = unlocked refl refl (omega arith)
  Reachable-IsSound (recorded {s = s} rounds r) =
      Keeps-IsSound s _ (record { locked_round = refl; locked_block = refl; round = omega arith })
        (Reachable-IsSound r)
  Reachable-IsSound (entered {s = s} step r) =
      Keeps-IsSound s _ (step-Keeps s step) (Reachable-IsSound r)
  Reachable-IsSound (proposed {s = s} r) =
      Keeps-IsSound s _
        (trans-Keeps s (current_round_state s).1 _ (add_round-Keeps s.round _ s)
          (propose_on-Keeps hash_of _ _))
        (Reachable-IsSound r)
  Reachable-IsSound (prevoted {s = s} r) =
      let (state, t) = current_round_state s in
      on_prevotes-IsSound state.prevote.two_thirds_majority state t (
        Keeps-IsSound s t (add_round-Keeps s.round (find_round s.round s.rounds) s)
          (Reachable-IsSound r))
  Reachable-IsSound (precommitted {s = s} r) =
      let (state, t) = current_round_state s in
      let next = on_precommits hash_of state.precommit.two_thirds_majority state t in
      Keeps-IsSound s next.0
        (trans-Keeps s t next.0 (add_round-Keeps s.round (find_round s.round s.rounds) s)
          (on_precommits-Keeps hash_of state.precommit.two_thirds_majority state t))
        (Reachable-IsSound r)
  Reachable-IsSound (propose_over {s = s} h n r) =
      Keeps-IsSound s _ (timeouts-Keep hash_of h n s).0 (Reachable-IsSound r)
  Reachable-IsSound (prevote_over {s = s} h n r) =
      Keeps-IsSound s _ (timeouts-Keep hash_of h n s).1 (Reachable-IsSound r)
  Reachable-IsSound (precommit_over {s = s} h n r) =
      Keeps-IsSound s _ (timeouts-Keep hash_of h n s).2 (Reachable-IsSound r)
  Reachable-IsSound (saw_valid {s = s} h n r) =
      Keeps-IsSound s _ (valid-Keeps hash_of h n s) (Reachable-IsSound r)
  Reachable-IsSound (skipped {s = s} h n v r) =
      Keeps-IsSound s _ (skip-Keeps hash_of h n v s) (Reachable-IsSound r)
