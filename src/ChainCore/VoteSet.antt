-- ===== src/ChainCore/VoteSet.antt =====
-- packages/chain-core/src/consensus-engine/state.ts: VoteSet
pub mod Tally
pub mod Strangers
use uniqys_kit.Prelude.{
  ℕ, ◌+◌, ◌*◌, Bool, true, false, Option, none, some, List, [], ◌∷◌, ◌&&◌, not, if◌then◌else◌, ltb,
  get_or, Result, ok, err, duplicated_vote,
}
use uniqys_kit.Types.FixedBytes.{equals}
use uniqys_kit.Types.ByteMap
use uniqys_kit.Types.ByteMap.{ByteMap}
use uniqys_kit.Types.Optional.{is_none}
use uniqys_kit.Signature.{Hash, Address, Signature}
use uniqys_kit.Blockchain.Validators.{ValidatorSet, power_of, total_power}
use uniqys_kit.Blockchain.Votes.{Vote}
use uniqys_kit.Blockchain.Messages.{VoteMessage}

pub record VoteSet : Type 0 where
  pub power : ℕ
  pub power_of_block : ByteMap ℕ
  pub message_of_validator : ByteMap VoteMessage
  pub two_thirds_majority : Option Vote
  pub two_thirds_any : Bool
  pub one_third_any : Bool

unfoldable pub new_vote_set : VoteSet
new_vote_set = record {
  power = 0;
  power_of_block = [];
  message_of_validator = [];
  two_thirds_majority = none;
  two_thirds_any = false;
  one_third_any = false;
}

-- The rest of add, once the voter's power is known.
unfoldable pub count_vote : ValidatorSet → VoteMessage → ℕ → VoteSet → VoteSet
unfolding is_none
count_vote vs message vote_power s =
    let block = message.vote.block_hash in
    let block_power = get_or (ByteMap.get block s.power_of_block) 0 + vote_power in
    let power = s.power + vote_power in
    record s {
      power = power;
      power_of_block = ByteMap.set block block_power s.power_of_block;
      two_thirds_majority =
          if is_none s.two_thirds_majority && ltb (total_power vs * 2) (block_power * 3)
          then some message.vote
          else s.two_thirds_majority;
      two_thirds_any =
          if not s.two_thirds_any && ltb (total_power vs * 2) (power * 3)
          then true
          else s.two_thirds_any;
      one_third_any =
          if not s.one_third_any && ltb (total_power vs) (power * 3) then true else s.one_third_any;
    }

-- What follows `messageOfValidator.set`: powerOf may throw, and then the message stays recorded.
unfoldable pub add_recorded :
    ValidatorSet → VoteMessage → Result ℕ → VoteSet → VoteSet × Result (Unit {0})
unfolding count_vote
add_recorded vs message (err e) s = (s, err e)
add_recorded vs message (ok vote_power) s = (count_vote vs message vote_power s, ok tt)

unfoldable pub has : Address → VoteSet → Bool
has address s = ByteMap.has address s.message_of_validator

unfoldable pub add : ValidatorSet → Address → VoteMessage → VoteSet → VoteSet × Result (Unit {0})
unfolding has
add vs address message s =
    if has address s
    then (s, err duplicated_vote)
    else add_recorded vs message (power_of vs address)
        (record s { message_of_validator = ByteMap.set address message s.message_of_validator })

-- .filter(msg => msg.vote.blockHash.equals(blockHash)).map(msg => msg.sign)
unfoldable pub signs_for : Hash → List VoteMessage → List Signature
signs_for block_hash [] = []
signs_for block_hash (m ∷ ms) =
    let rest = signs_for block_hash ms in
    if equals m.vote.block_hash block_hash then m.sign ∷ rest else rest

unfoldable pub signatures : Hash → VoteSet → List Signature
signatures block_hash s = signs_for block_hash (ByteMap.values s.message_of_validator)

unfoldable pub messages : VoteSet → List VoteMessage
messages s = ByteMap.values s.message_of_validator
