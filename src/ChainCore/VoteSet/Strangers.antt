-- ===== src/ChainCore/VoteSet/Strangers.antt =====
-- packages/chain-core/src/consensus-engine/state.ts: what a vote leaves behind whose signer is no
-- validator. `add` records it before it looks up the power and throws.
use uniqys_kit.Prelude.{
  ℕ, ◌≡◌, ◌≢◌, refl, false, true, List, [], ◌∷◌, ◌++◌, if◌then◌else◌, arith, Error, ok, err,
}
use uniqys_kit.Types.FixedBytes.{equals, equals_refl}
use uniqys_kit.Types.ByteMap
use uniqys_kit.Types.ByteMap.{ByteMap}
use uniqys_kit.Signature.{Hash, Address, Signature, Crypto}
use uniqys_kit.Blockchain.Validators
use uniqys_kit.Blockchain.Validators.{ValidatorSet, power_of}
use uniqys_kit.Blockchain.Votes.{Vote, type_precommit, vote_signer, validate}
use uniqys_kit.Blockchain.Votes.Quorum.{SignedBy, signed, validate_sound}
use uniqys_kit.Blockchain.Messages.{VoteMessage}
use uniqys_kit.ChainCore.VoteSet.{VoteSet, signs_for, signatures, add_recorded, has, add}

signs_for-set :
    (b : Hash) (a : Address) (m : VoteMessage) (ms : ByteMap VoteMessage)
    → ByteMap.has a ms ≡ false
    → signs_for b (ByteMap.values (ByteMap.set a m ms))
      ≡ signs_for b (ByteMap.values ms) ++ (if equals m.vote.block_hash b then m.sign ∷ [] else [])
unfolding signs_for ByteMap.values ByteMap.set ByteMap.has
signs_for-set b a m [] h = refl
signs_for-set b a m ((j, w) ∷ ms) h = ground (arith, signs_for-set b a m ms)

-- A first vote by an address without power throws, and its signature is among those for its block.
pub signatures-add_stranger :
    (vs : ValidatorSet) (a : Address) (m : VoteMessage) (s : VoteSet) (e : Error)
    → has a s ≡ false
    → power_of vs a ≡ err e
    → ((add vs a m s).1 ≡ err e)
      × (signatures m.vote.block_hash (add vs a m s).0
          ≡ signatures m.vote.block_hash s ++ m.sign ∷ [])
unfolding add add_recorded signatures has
signatures-add_stranger vs a m s e first unknown = (
  rw (first, unknown) refl,
  rw (first, unknown)
      (rw (equals_refl m.vote.block_hash) at
        (signs_for-set m.vote.block_hash a m s.message_of_validator first)),
)

module _ (c : Crypto) where
  last-exists :
      (vote : Vote) (genesis : Hash) (vs : ValidatorSet) (signs : List Signature) (sign : Signature)
      (signer : Address) (power : ℕ)
      → SignedBy c vote genesis vs (signs ++ sign ∷ []) power
      → vote_signer c type_precommit vote sign genesis ≡ ok signer
      → Validators.exists vs signer ≡ true
  last-exists vote genesis vs [] sign signer power (signed signer' p e₁ e₂ e₃ sum rest) e = cc
  last-exists vote genesis vs (x ∷ signs) sign signer power (signed signer' p e₁ e₂ e₃ sum rest) e =
      last-exists vote genesis vs signs sign signer _ rest e

  -- After a first precommit by an address outside the validator set has been added, which throws,
  -- validate refuses the consensus made of the set's signatures for that block.
  pub validate-add_stranger :
      (vs : ValidatorSet) (a : Address) (m : VoteMessage) (s : VoteSet) (e : Error)
      (block_hash genesis : Hash)
      → has a s ≡ false
      → power_of vs a ≡ err e
      → Validators.exists vs a ≡ false
      → vote_signer c type_precommit m.vote m.sign genesis ≡ ok a
      → validate c
          (record { vote = m.vote; signatures = signatures m.vote.block_hash (add vs a m s).0 })
          block_hash
          genesis
          vs
        ≢ ok tt
  validate-add_stranger vs a m s e block_hash genesis first unknown outside signer accepted =
      let (same, (power, signers, enough)) =
        validate_sound c _ block_hash genesis vs
          (rw (signatures-add_stranger vs a m s e first unknown).1 at accepted) in
      let inside =
        last-exists m.vote genesis vs (signatures m.vote.block_hash s) m.sign a power signers
          signer in
      cc
