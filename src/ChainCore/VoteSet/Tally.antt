-- ===== src/ChainCore/VoteSet/Tally.antt =====
-- packages/chain-core/src/consensus-engine/state.ts: the running numbers of a VoteSet are those of the
-- messages that it has recorded.
use uniqys_kit.Prelude.{
  ℕ, ◌+◌, ◌*◌, ◌≤◌, ◌<◌, ◌≡◌, refl, false, inl, inr, none, some, [], ◌∷◌, if◌then◌else◌, ltb, arith,
  Bool-cases, Option-cases, Result-cases, get_or, Result, Error, ok, err,
}
use uniqys_kit.Types.FixedBytes.{equals, equals_refl, equals→eq}
use uniqys_kit.Types.ByteMap
use uniqys_kit.Types.ByteMap.{ByteMap, get-set}
use uniqys_kit.Types.Optional.{is_none}
use uniqys_kit.Signature.{Hash, Address}
use uniqys_kit.Blockchain.Validators.{ValidatorSet, power_of, total_power}
use uniqys_kit.Blockchain.Votes.{Vote}
use uniqys_kit.Blockchain.Messages.{VoteMessage}
use uniqys_kit.ChainCore.VoteSet.{VoteSet, new_vote_set, count_vote, add_recorded, has, add}

abbrev pub power_or_zero : Result ℕ → ℕ
power_or_zero (ok p) = p
power_or_zero (err e) = 0

module _ (vs : ValidatorSet) where
  -- The power of those who voted.
  unfoldable pub voted : ByteMap VoteMessage → ℕ
  voted [] = 0
  voted ((a, m) ∷ ms) = power_or_zero (power_of vs a) + voted ms

  -- The power of those who voted for the block.
  unfoldable pub voted_for : Hash → ByteMap VoteMessage → ℕ
  voted_for b [] = 0
  voted_for b ((a, m) ∷ ms) =
      (if equals m.vote.block_hash b then power_or_zero (power_of vs a) else 0) + voted_for b ms

  pub record IsTallied (s : VoteSet) : Type 0 where
    pub power : s.power ≡ voted s.message_of_validator
    pub blocks :
        (b : Hash) → get_or (ByteMap.get b s.power_of_block) 0 ≡ voted_for b s.message_of_validator
    pub majority :
        (v : Vote)
        → s.two_thirds_majority ≡ some v
        → total_power vs * 2 < voted_for v.block_hash s.message_of_validator * 3
    pub no_majority :
        s.two_thirds_majority ≡ none
        → (b : Hash) → voted_for b s.message_of_validator * 3 ≤ total_power vs * 2
    pub any_two_thirds : s.two_thirds_any ≡ ltb (total_power vs * 2) (s.power * 3)
    pub any_one_third : s.one_third_any ≡ ltb (total_power vs) (s.power * 3)

  voted-set :
      (a : Address) (m : VoteMessage) (ms : ByteMap VoteMessage)
      → ByteMap.has a ms ≡ false
      → voted (ByteMap.set a m ms) ≡ voted ms + power_or_zero (power_of vs a)
  unfolding voted ByteMap.set ByteMap.has
  voted-set a m [] h = omega arith
  voted-set a m ((j, w) ∷ ms) h = ground (arith, voted-set a m ms)

  voted_for-set :
      (b : Hash) (a : Address) (m : VoteMessage) (ms : ByteMap VoteMessage)
      → ByteMap.has a ms ≡ false
      → voted_for b (ByteMap.set a m ms)
        ≡ voted_for b ms + (if equals m.vote.block_hash b then power_or_zero (power_of vs a) else 0)
  unfolding voted_for ByteMap.set ByteMap.has
  voted_for-set b a m [] h = omega arith
  voted_for-set b a m ((j, w) ∷ ms) h = ground (arith, voted_for-set b a m ms)

  -- The votes for two blocks are different votes.
  pub voted_for-disjoint :
      (b b' : Hash) (ms : ByteMap VoteMessage)
      → equals b b' ≡ false
      → voted_for b ms + voted_for b' ms ≤ voted ms
  unfolding voted voted_for
  voted_for-disjoint b b' [] h = omega arith
  voted_for-disjoint b b' ((a, m) ∷ ms) h = ground (
    arith,
    voted_for-disjoint b b' ms h,
    equals→eq m.vote.block_hash b,
    equals→eq m.vote.block_hash b',
  )

  pub new_vote_set-IsTallied : IsTallied new_vote_set
  unfolding new_vote_set voted voted_for ByteMap.get
  new_vote_set-IsTallied = record {
    power = refl;
    blocks = λ b. refl;
    majority = λ v e. cc;
    no_majority = λ e b. omega arith;
    any_two_thirds = ground arith;
    any_one_third = ground arith;
  }

  -- A recorded vote of a validator with its power `p`.
  module _ (s : VoteSet) (a : Address) (m : VoteMessage) (p : ℕ) (tallied : IsTallied s)
      (first : ByteMap.has a s.message_of_validator ≡ false) (known : power_of vs a ≡ ok p) where
    abbrev voters : ByteMap VoteMessage
    voters = ByteMap.set a m s.message_of_validator

    abbrev counted : VoteSet
    counted = count_vote vs m p (record s { message_of_validator = voters })

    grown : voted voters ≡ voted s.message_of_validator + p
    grown = rw known at (voted-set a m s.message_of_validator first)

    grown_for :
        (b : Hash)
        → voted_for b voters
          ≡ voted_for b s.message_of_validator + (if equals m.vote.block_hash b then p else 0)
    grown_for b = rw known at (voted_for-set b a m s.message_of_validator first)

    counted-blocks :
        (b : Hash) → get_or (ByteMap.get b counted.power_of_block) 0 ≡ voted_for b voters
    unfolding count_vote
    counted-blocks b = rw get-set (
        ground (
          arith,
          grown_for b,
          tallied.blocks b,
          tallied.blocks m.vote.block_hash,
          equals→eq m.vote.block_hash b,
        ))

    counted-majority :
        (v : Vote)
        → counted.two_thirds_majority ≡ some v
        → total_power vs * 2 < voted_for v.block_hash voters * 3
    unfolding count_vote is_none
    counted-majority v e = ground (
      arith,
      grown_for v.block_hash,
      tallied.majority v,
      tallied.blocks m.vote.block_hash,
      equals_refl m.vote.block_hash,
    )

    counted-no_majority :
        counted.two_thirds_majority ≡ none
        → (b : Hash) → voted_for b voters * 3 ≤ total_power vs * 2
    unfolding count_vote is_none
    counted-no_majority e b = elim (Option-cases s.two_thirds_majority) [
      | inl before ↦ ground (
        arith,
        grown_for b,
        tallied.no_majority before b,
        tallied.blocks m.vote.block_hash,
        equals→eq m.vote.block_hash b,
      )
      | inr (v, before) ↦ ground arith
    ]

    counted-IsTallied : IsTallied counted
    unfolding count_vote
    counted-IsTallied = record {
      power = omega (arith, grown, tallied.power);
      blocks = counted-blocks;
      majority = counted-majority;
      no_majority = counted-no_majority;
      any_two_thirds = ground (arith, tallied.any_two_thirds);
      any_one_third = ground (arith, tallied.any_one_third);
    }

  -- A voter without power leaves the numbers as they are.
  recorded-IsTallied :
      (s : VoteSet) (a : Address) (m : VoteMessage) (e : Error)
      → IsTallied s
      → ByteMap.has a s.message_of_validator ≡ false
      → power_of vs a ≡ err e
      → IsTallied (record s { message_of_validator = ByteMap.set a m s.message_of_validator })
  recorded-IsTallied s a m e tallied first unknown =
      let ms = s.message_of_validator in
      let same = rw unknown at (voted-set a m ms first) in
      let same_for = λ (b : Hash). rw unknown at (voted_for-set b a m ms first) in
      record {
        power = omega (arith, same, tallied.power);
        blocks = λ b. ground (arith, same_for b, tallied.blocks b);
        majority = λ v h. ground (arith, same_for v.block_hash, tallied.majority v h);
        no_majority = λ h b. ground (arith, same_for b, tallied.no_majority h b);
        any_two_thirds = tallied.any_two_thirds;
        any_one_third = tallied.any_one_third;
      }

  -- Every call of VoteSet.add, whether it returns or throws, keeps the set's numbers those of the
  -- messages that it has recorded: the total power, the power of each block, the block with two
  -- thirds, and the two flags.
  pub add-IsTallied :
      (a : Address) (m : VoteMessage) (s : VoteSet) → IsTallied s → IsTallied (add vs a m s).0
  unfolding add add_recorded
  add-IsTallied a m s tallied = elim (Bool-cases (has a s)) [
    | inl known ↦ rw known tallied
    | inr first ↦ elim (Result-cases (power_of vs a)) [
      | inl (p, e) ↦ rw (first, e) (counted-IsTallied s a m p tallied first e)
      | inr (x, e) ↦ rw (first, e) (recorded-IsTallied s a m x tallied first e)
    ]
  ]

  -- In a set whose numbers are those of its messages, and in which no more power has voted than
  -- there is, a block other than that of the two-thirds majority has at most a third of the total
  -- power.
  pub majority_unique :
      (s : VoteSet) (v : Vote) (b : Hash)
      → IsTallied s
      → s.two_thirds_majority ≡ some v
      → equals v.block_hash b ≡ false
      → voted s.message_of_validator ≤ total_power vs
      → voted_for b s.message_of_validator * 3 ≤ total_power vs
  majority_unique s v b tallied e other bounded =
      omega (
        arith,
        tallied.majority v e,
        voted_for-disjoint v.block_hash b s.message_of_validator other,
      )
