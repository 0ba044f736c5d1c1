-- ===== src/ChainCore/Histories/Entries.antt =====
-- packages/chain-core/src/consensus-engine/index.ts: what is recorded after a round is entered, and after
-- anything that the engine does.
use uniqys_kit.Prelude.{
  Bool, true, false, not, Option, none, some, List, [], ◌==◌, if◌then◌else◌, Result, ok, err, subst,
  Result-cases, inl, inr,
}
use uniqys_kit.Types.FixedBytes.{Bytes, equals}
use uniqys_kit.Types.Optional.{is_none}
use uniqys_kit.Signature.{Hash, Crypto}
use uniqys_kit.Blockchain.Transaction.{TransactionList}
use uniqys_kit.Blockchain.Validators.{ValidatorSet, set_hash}
use uniqys_kit.Blockchain.Blocks.{Block}
use uniqys_kit.ChainCore.State.{
  State, Step, new_round_step, propose_step, prevote_step, prevote_wait_step, precommit_step,
  precommit_wait_step, committed_step, new_round, new_height, round_state_of, current_round_state,
}
use uniqys_kit.ChainCore.Engine.{do_propose, do_prevote_or_wait, do_precommit_or_wait}
use uniqys_kit.ChainCore.Handlers.Recorded.{IsRecorded}
use uniqys_kit.ChainCore.Handlers.Recorded.Handled.{new_consensus_message-IsRecorded}
use uniqys_kit.ChainCore.Duties.{
  Entry, is_own_turn, enter_by_turn, enter_propose, enter_selected, enter_if_needed, do_new_round,
  proceed_at, proceed_consensus,
}
use uniqys_kit.ChainCore.Histories.{
  begin, handled, proceeded, propose_over, prevote_over, precommit_over, saw_valid, skipped,
  Reachable, Good, opened, proposed, prevoted, precommitted, timeouts-Good, check_valid_block-Good,
  check_round_skip-Good,
}

module _ (c : Crypto) (genesis : Hash) (vs : ValidatorSet) (key : Option Bytes)
    (hash_of : Block → Hash) where
  -- The state of a result, if it is one.
  abbrev AllGood : {A : Type 0} → Result (State × A) → Type 0
  AllGood (err e) = Unit
  AllGood (ok (t, asked)) = Good c genesis vs key hash_of t

  enter_by_turn-Good :
      (selected transactions : Option TransactionList) (s : State) (own : Bool)
      → Good c genesis vs key hash_of s
      → Good c genesis vs key hash_of (enter_by_turn c vs key selected transactions s own).0
  unfolding enter_by_turn
  enter_by_turn-Good selected none s true good = good
  enter_by_turn-Good selected (some txs) s true good = good
  enter_by_turn-Good selected none s false good = good
  enter_by_turn-Good selected (some txs) s false good = good

  enter_propose-Good :
      (selected transactions : Option TransactionList) (s : State)
      → Good c genesis vs key hash_of s
      → AllGood (enter_propose c vs key selected transactions s)
  unfolding enter_propose
  enter_propose-Good selected transactions s good = elim (Result-cases (is_own_turn c vs key s)) [
    | inl (own, e) ↦ rw e (enter_by_turn-Good selected transactions s own good)
    | inr (x, e) ↦ rw e tt
  ]

  either-Good :
      (b : Bool) (x y : Result (State × List Entry))
      → AllGood x
      → AllGood y
      → AllGood (if b then x else y)
  either-Good true x y h k = h
  either-Good false x y h k = k

  enter_selected-Good :
      (selected : Option TransactionList) (s : State)
      → Good c genesis vs key hash_of s
      → AllGood (enter_selected c vs key selected s)
  unfolding enter_selected
  enter_selected-Good none s good = good
  enter_selected-Good (some txs) s good = enter_propose-Good none (some txs) s good

  enter_if_needed-Good :
      (selected : Option TransactionList) (last : Result Hash) (s : State)
      → Good c genesis vs key hash_of s
      → AllGood (enter_if_needed c vs key selected last s)
  unfolding enter_if_needed
  enter_if_needed-Good selected (err x) s good = tt
  enter_if_needed-Good selected (ok hash) s good = elim (Result-cases (set_hash c vs)) [
    | inl (root, e) ↦ rw e (
        let enter = enter_propose c vs key selected none s in
        let entered = enter_propose-Good selected none s good in
        let other = enter_selected c vs key selected s in
        let mismatch = not (equals s.next_validator_set_root root) in
        either-Good (not (equals s.app_state_hash hash)) enter (if mismatch then enter else other)
          entered (either-Good mismatch enter other entered (enter_selected-Good selected s good)))
    | inr (x, e) ↦ rw e tt
  ]

  do_new_round-Good :
      (selected : Option TransactionList) (last : Result Hash) (s : State)
      → Good c genesis vs key hash_of s
      → AllGood (do_new_round c vs key selected last s)
  unfolding do_new_round current_round_state
  do_new_round-Good selected last s good =
      let (r, t) = round_state_of s.round s in
      let good' = opened c genesis vs key hash_of s.round s good in
      let enter = enter_propose c vs key selected none t in
      let entered = enter_propose-Good selected none t good' in
      let needed = enter_if_needed c vs key selected last t in
      let first = t.height == 1 in
      let valid = not (is_none t.valid_block) in
      either-Good (not (is_none r.proposal)) (ok (record t { step = propose_step }, []))
        (if valid then enter else if first then enter else needed) good'
        (either-Good valid enter (if first then enter else needed) entered
          (either-Good first enter needed entered (enter_if_needed-Good selected last t good')))

  proceed_at-Good :
      (step : Step) (selected : Option TransactionList) (last : Result Hash) (s : State)
      → Good c genesis vs key hash_of s
      → AllGood (proceed_at c vs key hash_of step selected last s)
  unfolding proceed_at do_propose do_prevote_or_wait do_precommit_or_wait current_round_state
  proceed_at-Good new_round_step selected last s good =
      elim (Result-cases (do_new_round c vs key selected last s)) [
        | inl ((t, entries), e) ↦ rw e (subst AllGood e (do_new_round-Good selected last s good))
        | inr (x, e) ↦ rw e tt
      ]
  proceed_at-Good propose_step selected last s good = proposed c genesis vs key hash_of s good
  proceed_at-Good prevote_step selected last s good = prevoted c genesis vs key hash_of s good
  proceed_at-Good prevote_wait_step selected last s good = prevoted c genesis vs key hash_of s good
  proceed_at-Good precommit_step selected last s good = precommitted c genesis vs key hash_of s good
  proceed_at-Good precommit_wait_step selected last s good =
      precommitted c genesis vs key hash_of s good
  proceed_at-Good committed_step selected last s good = good

  -- From a new height on, as long as the engine's validators are the same: every proposal that is
  -- recorded for a round is of the height and of that round, is signed by the round's proposer, and
  -- names no lock or one of an earlier round; and the numbers of each set of votes are those of the
  -- messages that it has recorded.
  pub Reachable-IsRecorded :
      {s : State} → Reachable c genesis vs key hash_of s → IsRecorded c genesis vs s
  unfolding new_height new_round proceed_consensus
  Reachable-IsRecorded (begin h a n e s) = tt
  Reachable-IsRecorded (handled {s = s} m from r) =
      new_consensus_message-IsRecorded c genesis vs m from s (Reachable-IsRecorded r)
  Reachable-IsRecorded (proceeded {s = s} selected last asked r e) =
      subst AllGood e (proceed_at-Good s.step selected last s (Reachable-IsRecorded r))
  Reachable-IsRecorded (propose_over {s = s} h n r) =
      (timeouts-Good c genesis vs key hash_of h n s (Reachable-IsRecorded r)).0
  Reachable-IsRecorded (prevote_over {s = s} h n r) =
      (timeouts-Good c genesis vs key hash_of h n s (Reachable-IsRecorded r)).1
  Reachable-IsRecorded (precommit_over {s = s} h n r) =
      (timeouts-Good c genesis vs key hash_of h n s (Reachable-IsRecorded r)).2
  Reachable-IsRecorded (saw_valid {s = s} h n r) =
      check_valid_block-Good c genesis vs key hash_of h n s (Reachable-IsRecorded r)
  Reachable-IsRecorded (skipped {s = s} h n votes r) =
      check_round_skip-Good c genesis vs key hash_of h n votes s (Reachable-IsRecorded r)
