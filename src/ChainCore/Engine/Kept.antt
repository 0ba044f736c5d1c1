-- ===== src/ChainCore/Engine/Kept.antt =====
-- packages/chain-core/src/consensus-engine/index.ts: the steps that set no lock.
use uniqys_kit.Prelude.{
  Bool-cases, inl, inr, ℕ, ◌+◌, ◌≤◌, ◌≡◌, ◌∙◌, refl, Bool, true, false, Option, none, some, List,
  [], ◌∷◌, ◌==◌, ◌&&◌, ◌||◌, not, ltb, leb, if◌then◌else◌, arith,
}
use uniqys_kit.Types.FixedBytes.{equals}
use uniqys_kit.Signature.{Hash}
use uniqys_kit.Signature.Keys.{hash_zero}
use uniqys_kit.Blockchain.Votes.{Vote}
use uniqys_kit.Blockchain.Blocks.{Block}
use uniqys_kit.Blockchain.Messages.{Proposal, ProposalMessage}
use uniqys_kit.ChainCore.VoteSet.{VoteSet}
use uniqys_kit.ChainCore.State.{
  State, RoundState, Step, propose_step, prevote_step, prevote_wait_step, precommit_step,
  precommit_wait_step, same_step, new_round, find_round, add_round, round_state_of,
}
use uniqys_kit.ChainCore.Engine.{
  Effect, prevote_timeout, precommit_timeout, is_block, is_majority_for, is_proposed, is_at,
  prevote_for, unlock_by, decide_prevote, propose_on, wait_prevote, precommit_for, commit_block,
  commit_proposal, wait_precommit, on_precommits, on_propose_timeout, on_prevote_timeout,
  on_precommit_timeout, check_valid_block, see_valid, check_round_skip,
}

-- What a step keeps that sets no lock and no earlier round.
pub record Keeps (s t : State) : Type 0 where
  pub locked_round : t.locked_round ≡ s.locked_round
  pub locked_block : t.locked_block ≡ s.locked_block
  pub round : s.round ≤ t.round

pub Keeps-refl : (s : State) → Keeps s s
Keeps-refl s = record { locked_round = refl; locked_block = refl; round = omega arith }

pub add_round-Keeps : (r : ℕ) (o : Option RoundState) (s : State) → Keeps s (add_round r o s).1
unfolding add_round
add_round-Keeps r none s = record { locked_round = refl; locked_block = refl; round = omega arith }
add_round-Keeps r (some x) s = Keeps-refl s

-- Both branches of a test keep it.
pub if-Keeps :
    {s : State} (b : Bool) (x y : State × List Effect)
    → Keeps s x.0
    → Keeps s y.0
    → Keeps s (if b then x else y).0
if-Keeps true x y h k = h
if-Keeps false x y h k = k

pub either-Keeps :
    {s : State} (b : Bool) (x y : State) → Keeps s x → Keeps s y → Keeps s (if b then x else y)
either-Keeps true x y h k = h
either-Keeps false x y h k = k

pub trans-Keeps : (s t u : State) → Keeps s t → Keeps t u → Keeps s u
trans-Keeps s t u h k = record {
  locked_round = k.locked_round ∙ h.locked_round;
  locked_block = k.locked_block ∙ h.locked_block;
  round = omega (arith, h.round, k.round);
}

pub step-Keeps : (s : State) (step : Step) → Keeps s (record s { step = step })
step-Keeps s step = record { locked_round = refl; locked_block = refl; round = omega arith }

pub new_round-Keeps : (s : State) (r : ℕ) → s.round ≤ r → Keeps s (new_round r s)
unfolding new_round
new_round-Keeps s r h = record { locked_round = refl; locked_block = refl; round = h }

module _ (hash_of : Block → Hash) where
  pub prevote-Keeps : (o : Option Hash) (s : State) → Keeps s (prevote_for hash_of o s).0
  unfolding prevote_for
  prevote-Keeps o s = step-Keeps s prevote_step

  pub precommit-Keeps : (o : Option Hash) (s : State) → Keeps s (precommit_for hash_of o s).0
  unfolding precommit_for
  precommit-Keeps o s = step-Keeps s precommit_step

  pub timeouts-Keep :
      (h r : ℕ) (s : State)
      → Keeps s (on_propose_timeout hash_of h r s).0
        × Keeps s (on_prevote_timeout hash_of h r s).0
        × Keeps s (on_precommit_timeout hash_of h r s).0
  unfolding on_propose_timeout on_prevote_timeout on_precommit_timeout
  timeouts-Keep h r s = (
    if-Keeps (is_at hash_of h r propose_step s) (prevote_for hash_of none s) (s, [])
        (prevote-Keeps none s) (Keeps-refl s),
    if-Keeps (is_at hash_of h r prevote_wait_step s) (precommit_for hash_of none s) (s, [])
        (precommit-Keeps none s) (Keeps-refl s),
    if-Keeps (is_at hash_of h r precommit_wait_step s) (new_round (s.round + 1) s, []) (s, [])
        (new_round-Keeps s (s.round + 1) (omega arith)) (Keeps-refl s),
  )

  pub unlock_by-Keeps : (p : Proposal) (s : State) → Keeps s (unlock_by hash_of p s).0
  unfolding unlock_by round_state_of
  unlock_by-Keeps p s =
      let (state, t) = round_state_of p.locked_round s in
      let read = add_round-Keeps p.locked_round (find_round p.locked_round s.rounds) s in
      let choice = prevote_for hash_of (some (hash_of p.block)) t in
      let majority = is_majority_for hash_of (hash_of p.block) state.prevote.two_thirds_majority in
      if-Keeps (leb s.locked_round p.locked_round) (if majority then choice else (t, [])) (s, [])
        (if-Keeps majority choice (t, [])
          (trans-Keeps s t choice.0 read (prevote-Keeps (some (hash_of p.block)) t)) read)
        (Keeps-refl s)

  pub propose_on-Keeps :
      (o : Option ProposalMessage) (s : State) → Keeps s (propose_on hash_of o s).0
  unfolding propose_on decide_prevote
  propose_on-Keeps none s = Keeps-refl s
  propose_on-Keeps (some m) s =
      let p = m.proposal in
      let is_locked = is_block hash_of (hash_of p.block) s.locked_block in
      let choice = prevote_for hash_of (some (hash_of p.block)) s in
      if-Keeps (ltb p.locked_round s.locked_round && not is_locked) (prevote_for hash_of none s)
        (if s.locked_round == 0 || is_locked then choice else unlock_by hash_of p s)
        (prevote-Keeps none s)
        (if-Keeps (s.locked_round == 0 || is_locked) choice (unlock_by hash_of p s)
          (prevote-Keeps (some (hash_of p.block)) s) (unlock_by-Keeps p s))

  pub commit_proposal-Keeps :
      (vote : Vote) (v : VoteSet) (p : Option ProposalMessage) (s : State)
      → Keeps s (commit_proposal hash_of vote v p s).0
  unfolding commit_proposal commit_block
  commit_proposal-Keeps vote v none s = Keeps-refl s
  commit_proposal-Keeps vote v (some m) s = step-Keeps s _

  pub waits-Keep :
      (v : VoteSet) (s : State)
      → Keeps s (wait_prevote hash_of v s).0 × Keeps s (wait_precommit hash_of v s).0
  unfolding wait_prevote wait_precommit
  waits-Keep v s = (
    if-Keeps (same_step s.step prevote_step && v.two_thirds_any)
        (record s { step = prevote_wait_step }, prevote_timeout s.height s.round ∷ []) (s, [])
        (step-Keeps s prevote_wait_step) (Keeps-refl s),
    if-Keeps (same_step s.step precommit_step && v.two_thirds_any)
        (record s { step = precommit_wait_step }, precommit_timeout s.height s.round ∷ []) (s, [])
        (step-Keeps s precommit_wait_step) (Keeps-refl s),
  )

  pub on_precommits-Keeps :
      (o : Option Vote) (r : RoundState) (s : State) → Keeps s (on_precommits hash_of o r s).0
  unfolding on_precommits
  on_precommits-Keeps none r s = (waits-Keep r.precommit s).1
  on_precommits-Keeps (some vote) r s =
      let zero_hash = equals vote.block_hash hash_zero in
      let skip : State × List Effect = (new_round (s.round + 1) s, []) in
      let wait = wait_precommit hash_of r.precommit s in
      if-Keeps (is_proposed hash_of vote.block_hash r.proposal)
        (commit_proposal hash_of vote r.precommit r.proposal s) (if zero_hash then skip else wait)
        (commit_proposal-Keeps vote r.precommit r.proposal s)
        (if-Keeps zero_hash skip wait (new_round-Keeps s (s.round + 1) (omega arith))
          (waits-Keep r.precommit s).1)

  pub see_valid-Keeps :
      (n : ℕ) (o : Option Vote) (p : Option ProposalMessage) (s : State)
      → Keeps s (see_valid hash_of n o p s)
  unfolding see_valid
  see_valid-Keeps n none p s = Keeps-refl s
  see_valid-Keeps n (some vote) none s = Keeps-refl s
  see_valid-Keeps n (some vote) (some m) s =
      either-Keeps (equals vote.block_hash (hash_of m.proposal.block))
        (record s { valid_round = n; valid_block = some m.proposal.block }) s
        (record { locked_round = refl; locked_block = refl; round = omega arith }) (Keeps-refl s)

  pub valid-Keeps : (h r : ℕ) (s : State) → Keeps s (check_valid_block hash_of h r s)
  unfolding check_valid_block round_state_of
  valid-Keeps h r s =
      let (state, t) = round_state_of r s in
      let seen = see_valid hash_of r state.prevote.two_thirds_majority state.proposal t in
      either-Keeps (not (s.height == h) || leb r s.valid_round) s seen (Keeps-refl s) (
        trans-Keeps s t seen (add_round-Keeps r (find_round r s.rounds) s)
          (see_valid-Keeps r state.prevote.two_thirds_majority state.proposal t))

  -- A round is skipped for a later one only.
  pub skip-Keeps : (h r : ℕ) (v : VoteSet) (s : State) → Keeps s (check_round_skip hash_of h r v s)
  unfolding check_round_skip
  skip-Keeps h r v s = elim (Bool-cases (not (s.height == h) || leb r s.round)) [
    | inl e ↦ rw e (Keeps-refl s)
    | inr e ↦ rw e (
        either-Keeps v.one_third_any (new_round r s) s
          (new_round-Keeps s r (later (s.height == h) e)) (Keeps-refl s))
  ]
    where
      later : (b : Bool) → (not b || leb r s.round) ≡ false → s.round ≤ r
      later b e = ground arith
