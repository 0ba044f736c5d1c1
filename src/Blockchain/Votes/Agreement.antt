-- ===== src/Blockchain/Votes/Agreement.antt =====
-- packages/blockchain/src/consensus.ts: two consensuses that Consensus.validate accepts.
use uniqys_kit.Prelude.{
  ℕ, ◌*◌, ◌≤◌, ◌<◌, ◌≡◌, subst, true, false, ◌&&◌, List, [], ◌∷◌, Result, ok, err, arith,
}
use uniqys_kit.Types.FixedBytes.{equals, equals→eq}
use uniqys_kit.Signature.{Hash, Address, Signature, Crypto}
use uniqys_kit.Blockchain.Validators
use uniqys_kit.Blockchain.Validators.{ValidatorSet, power_of}
use uniqys_kit.Blockchain.Validators.Shares.{
  power_by, is_one_of, power_by-both, power_by-either, power_of-le,
}
use uniqys_kit.Blockchain.Votes.{Vote, Consensus, type_precommit, vote_signer, validate}
use uniqys_kit.Blockchain.Votes.Quorum.{SignedBy, none_left, signed, validate_sound}

abbrev pub AreDistinct : List Address → Type 0
AreDistinct [] = Unit {0}
AreDistinct (a ∷ addresses) = (is_one_of addresses a ≡ false) × AreDistinct addresses

abbrev pub with_signer : Result Address → List Address → List Address
with_signer (ok a) addresses = a ∷ addresses
with_signer (err e) addresses = addresses

module _ (c : Crypto) where
  -- Those who have signed the precommit of a vote.
  unfoldable pub signers : Vote → Hash → List Signature → List Address
  signers vote genesis [] = []
  signers vote genesis (sign ∷ signs) =
      with_signer (vote_signer c type_precommit vote sign genesis) (signers vote genesis signs)

  abbrev pub signers_of : Consensus → Hash → List Address
  signers_of v genesis = signers v.vote genesis v.signatures

  SignedBy-le :
      {vote : Vote} {genesis : Hash} {vs : ValidatorSet} {signs : List Signature} {power : ℕ}
      → SignedBy c vote genesis vs signs power
      → AreDistinct (signers vote genesis signs)
      → power ≤ power_by (is_one_of (signers vote genesis signs)) vs
  unfolding signers is_one_of
  SignedBy-le none_left distinct = omega arith
  SignedBy-le {vote} {genesis} {vs} (signed {signs = signs} signer p by known powered sum rest)
        distinct =
      let others = signers vote genesis signs in
      let (new, different) = rw by at distinct in
      let mine = power_of-le signer vs p powered in
      let theirs = SignedBy-le rest different in
      let apart : (a : Address) → equals signer a ≡ true → is_one_of others a ≡ false =
        λ a e. subst (λ x. is_one_of others x ≡ false) (equals→eq signer a e) new in
      let both = power_by-either (equals signer) (is_one_of others) vs apart in
      rw by (omega (arith, sum, mine, theirs, both))

  -- If validate accepts two consensuses with the same validator set and genesis, for whatever
  -- votes, and in neither one two signatures are by the same signer, then the validators who have
  -- signed both have more than a third of the total power.
  pub validate-agreement :
      (v w : Consensus) (block_hash other_hash genesis : Hash) (vs : ValidatorSet)
      → validate c v block_hash genesis vs ≡ ok tt
      → validate c w other_hash genesis vs ≡ ok tt
      → AreDistinct (signers_of v genesis)
      → AreDistinct (signers_of w genesis)
      → Validators.total_power vs
        < power_by
            (λ a. is_one_of (signers_of v genesis) a && is_one_of (signers_of w genesis) a)
            vs
          * 3
  validate-agreement v w block_hash other_hash genesis vs accepted also distinct distinct' =
      let (_, (power, by, enough)) = validate_sound c v block_hash genesis vs accepted in
      let (_, (power', by', enough')) = validate_sound c w other_hash genesis vs also in
      omega (
        arith,
        enough,
        enough',
        SignedBy-le by distinct,
        SignedBy-le by' distinct',
        power_by-both (is_one_of (signers_of v genesis)) (is_one_of (signers_of w genesis)) vs,
      )
