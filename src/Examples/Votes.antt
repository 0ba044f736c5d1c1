-- ===== src/Examples/Votes.antt =====
-- Validators and their votes.
use uniqys_kit.Prelude.{
  ℕ, ◌&&◌, ◌*◌, ◌≤◌, ◌<◌, ◌≡◌, ◌≢◌, refl, true, false, some, [], ◌∷◌, arith, ok, err, replicate,
  not_included,
}
use uniqys_kit.Serialize.Buffer.{
  append, resize, grow, copy, new_writer, contents, ensure, write_through,
}
use uniqys_kit.Serialize.Integers.{be_bytes, write_uint_be}
use uniqys_kit.Serialize.UInt8
use uniqys_kit.Serialize.UInt32
use uniqys_kit.Serialize.UInt64
use uniqys_kit.Types.Optional.{is_none}
use uniqys_kit.Types.FixedBytes
use uniqys_kit.Types.FixedBytes.{equals}
use uniqys_kit.Types.ByteMap
use uniqys_kit.Signature.{Address}
use uniqys_kit.Signature.Keys.{
  from_data, from_public_key, recovery, recover, public_key_of, address,
}
use uniqys_kit.Blockchain.Validators.{
  ValidatorSet, power_map, power_of, power_or_throw, exists, total_power,
}
use uniqys_kit.Blockchain.Votes.{
  Vote, Consensus, type_precommit, vote_signer, vote_digest, vote_payload, write_payload,
  vote_serialize, validate,
}
use uniqys_kit.Blockchain.Validators.Shares.{power_by, is_one_of}
use uniqys_kit.Blockchain.Votes.Agreement.{AreDistinct, signers, signers_of, validate-agreement}
use uniqys_kit.Blockchain.Votes.Quorum.{SignedBy, validate_sound, validate_repeated_signature}
use uniqys_kit.ChainCore.VoteSet.{
  VoteSet, new_vote_set, count_vote, add_recorded, add, has, signatures,
}
use uniqys_kit.ChainCore.VoteSet.Tally.{
  IsTallied, voted, voted_for, new_vote_set-IsTallied, add-IsTallied, majority_unique,
}
use uniqys_kit.ChainCore.VoteSet.Strangers.{validate-add_stranger}
use uniqys_kit.Examples.Toy.{toy, sign_of_toy, hash_of, vote_for_7, message_for_7}

-- The signer of every toy signature.
abbrev signer : Address
signer = replicate 20 64

abbrev other : Address
other = replicate 20 5

abbrev two : ValidatorSet
two = record { address = signer; power = 1 } ∷ record { address = other; power = 9 } ∷ []

signer_of_7 : vote_signer toy type_precommit vote_for_7 sign_of_toy (hash_of 9) ≡ ok signer
unfolding vote_signer vote_digest vote_payload write_payload FixedBytes.serialize UInt8.serialize
    vote_serialize UInt64.serialize UInt32.serialize write_uint_be be_bytes ensure write_through
    append resize grow copy new_writer contents address recover recovery public_key_of
    FixedBytes.construct from_public_key from_data
signer_of_7 = refl

one_of_ten : (power_of two signer ≡ ok 1) × (exists two signer ≡ true)
unfolding power_of exists power_or_throw power_map ByteMap.set ByteMap.get ByteMap.has equals
one_of_ten = (refl, refl)

total_of_two : total_power two ≡ 10
unfolding total_power
total_of_two = refl

-- The validator with one tenth of the power, seven times.
validate_repeated_signature_example :
    validate toy
      (record { vote = vote_for_7; signatures = replicate 7 sign_of_toy })
      (hash_of 7)
      (hash_of 9)
      two
    ≡ ok tt
validate_repeated_signature_example =
    validate_repeated_signature toy vote_for_7 (hash_of 9) two sign_of_toy signer 1 7 signer_of_7
      one_of_ten.1 one_of_ten.0 (rw total_of_two (omega arith))

validate_sound_example :
    (vote_for_7.block_hash ≡ hash_of 7)
    × ((power : ℕ) × SignedBy toy vote_for_7 (hash_of 9) two (replicate 7 sign_of_toy) power
        × (total_power two * 2 < power * 3))
validate_sound_example =
    validate_sound toy (record { vote = vote_for_7; signatures = replicate 7 sign_of_toy })
      (hash_of 7) (hash_of 9) two validate_repeated_signature_example

add-IsTallied_example : IsTallied two (add two signer message_for_7 new_vote_set).0
add-IsTallied_example =
    add-IsTallied two signer message_for_7 new_vote_set (new_vote_set-IsTallied two)

-- A set in which the signer of the toy signatures is no validator.
abbrev strangers : ValidatorSet
strangers = record { address = other; power = 9 } ∷ []

stranger_facts :
    (has signer new_vote_set ≡ false)
    × (power_of strangers signer ≡ err not_included)
    × (exists strangers signer ≡ false)
unfolding has power_of exists power_or_throw power_map ByteMap.set ByteMap.get ByteMap.has equals
    new_vote_set
stranger_facts = (refl, refl, refl)

validate-add_stranger_example :
    validate toy
      (record {
        vote = vote_for_7;
        signatures = signatures (hash_of 7) (add strangers signer message_for_7 new_vote_set).0;
      })
      (hash_of 7)
      (hash_of 9)
      strangers
    ≢ ok tt
validate-add_stranger_example =
    validate-add_stranger toy strangers signer message_for_7 new_vote_set not_included (hash_of 7)
      (hash_of 9) stranger_facts.0 stranger_facts.1 stranger_facts.2 signer_of_7

-- One validator, whose vote is two thirds and more.
abbrev alone : ValidatorSet
alone = record { address = signer; power = 3 } ∷ []

abbrev voted_once : VoteSet
voted_once = (add alone signer message_for_7 new_vote_set).0

voted_once_facts :
    (voted_once.two_thirds_majority ≡ some vote_for_7)
    × (equals (hash_of 7) (hash_of 8) ≡ false)
    × (voted alone voted_once.message_of_validator ≤ total_power alone)
unfolding add add_recorded count_vote has power_of power_or_throw power_map total_power voted
    ByteMap.set ByteMap.get ByteMap.has equals new_vote_set is_none
voted_once_facts = (refl, refl, omega arith)

majority_unique_example :
    voted_for alone (hash_of 8) voted_once.message_of_validator * 3 ≤ total_power alone
majority_unique_example =
    majority_unique alone voted_once vote_for_7 (hash_of 8)
      (add-IsTallied alone signer message_for_7 new_vote_set (new_vote_set-IsTallied alone))
      voted_once_facts.0 voted_once_facts.1 voted_once_facts.2

-- The only validator precommits two blocks in one round.
abbrev one : ValidatorSet
one = record { address = signer; power = 9 } ∷ []

abbrev vote_for_8 : Vote
vote_for_8 = record { height = 3; round = 1; block_hash = hash_of 8 }

signer_of_8 : vote_signer toy type_precommit vote_for_8 sign_of_toy (hash_of 9) ≡ ok signer
unfolding vote_signer vote_digest vote_payload write_payload FixedBytes.serialize UInt8.serialize
    vote_serialize UInt64.serialize UInt32.serialize write_uint_be be_bytes ensure write_through
    append resize grow copy new_writer contents address recover recovery public_key_of
    FixedBytes.construct from_public_key from_data
signer_of_8 = refl

abbrev by_one : Vote → Consensus
by_one vote = record { vote = vote; signatures = sign_of_toy ∷ [] }

nine_of_nine : (power_of one signer ≡ ok 9) × (exists one signer ≡ true) × (total_power one ≡ 9)
unfolding power_of exists power_or_throw power_map total_power ByteMap.set ByteMap.get ByteMap.has
    equals
nine_of_nine = (refl, refl, refl)

accepted :
    (vote : Vote)
    → vote_signer toy type_precommit vote sign_of_toy (hash_of 9) ≡ ok signer
    → validate toy (by_one vote) vote.block_hash (hash_of 9) one ≡ ok tt
accepted vote by =
    let (powered, known, total) = nine_of_nine in
    validate_repeated_signature toy vote (hash_of 9) one sign_of_toy signer 9 1 by known powered
      (rw total (omega arith))

distinct :
    (vote : Vote)
    → vote_signer toy type_precommit vote sign_of_toy (hash_of 9) ≡ ok signer
    → AreDistinct (signers_of toy (by_one vote) (hash_of 9))
unfolding signers is_one_of
distinct vote by = rw by (refl, tt)

validate-agreement_example :
    total_power one
    < power_by
        (λ a.
          is_one_of (signers_of toy (by_one vote_for_7) (hash_of 9)) a
          && is_one_of (signers_of toy (by_one vote_for_8) (hash_of 9)) a)
        one
      * 3
validate-agreement_example =
    validate-agreement toy (by_one vote_for_7) (by_one vote_for_8) (hash_of 7) (hash_of 8)
      (hash_of 9) one (accepted vote_for_7 signer_of_7) (accepted vote_for_8 signer_of_8)
      (distinct vote_for_7 signer_of_7) (distinct vote_for_8 signer_of_8)
