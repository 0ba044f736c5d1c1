-- ===== src/Blockchain/Votes/Quorum.antt =====
-- packages/blockchain/src/consensus.ts: what Consensus.validate accepts.
use uniqys_kit.Prelude.{
  ℕ, zero, suc, ◌+◌, ◌*◌, ◌<◌, ◌≡◌, refl, ap, ◌∙◌, true, List, [], ◌∷◌, arith, lt→ltb, ltb→lt,
  replicate, ok, guard, >>=-eq-ok, guard-eq-ok, block_hash_mismatch, not_exists_in_validator_set,
  insufficient_signature_power,
}
use uniqys_kit.Types.FixedBytes
use uniqys_kit.Types.FixedBytes.{equals_refl, equals→eq}
use uniqys_kit.Signature.{Hash, Address, Signature, Crypto}
use uniqys_kit.Blockchain.Validators
use uniqys_kit.Blockchain.Validators.{ValidatorSet}
use uniqys_kit.Blockchain.Votes.{
  Vote, Consensus, type_precommit, vote_signer, signed_power, validate,
}

module _ (c : Crypto) where
  -- Each signature is a precommit of the vote by a validator, and their powers add up to `power`.
  pub data SignedBy (vote : Vote) (genesis : Hash) (vs : ValidatorSet)
      : List Signature → ℕ → Type 0 where
    none_left : SignedBy vote genesis vs [] 0
    signed :
        {sign : Signature} {signs : List Signature} {power total : ℕ} (signer : Address) (p : ℕ)
        → vote_signer c type_precommit vote sign genesis ≡ ok signer
        → Validators.exists vs signer ≡ true
        → Validators.power_of vs signer ≡ ok p
        → total ≡ p + power
        → SignedBy vote genesis vs signs power
        → SignedBy vote genesis vs (sign ∷ signs) total

  signed_power_sound :
      (vote : Vote) (genesis : Hash) (vs : ValidatorSet) (signs : List Signature) (start power : ℕ)
      → signed_power c vote genesis vs signs start ≡ ok power
      → (added : ℕ) × (power ≡ start + added) × SignedBy vote genesis vs signs added
  unfolding signed_power
  signed_power_sound vote genesis vs [] start power h = (0, ground arith, none_left)
  signed_power_sound vote genesis vs (sign ∷ signs) start power h =
      let (signer, e₁, h₁) = >>=-eq-ok (vote_signer c type_precommit vote sign genesis) _ h in
      let (_, e₂, h₂) =
        >>=-eq-ok (guard (Validators.exists vs signer) not_exists_in_validator_set) _ h₁ in
      let (p, e₃, h₃) = >>=-eq-ok (Validators.power_of vs signer) _ h₂ in
      let (added, sum, rest) = signed_power_sound vote genesis vs signs (start + p) power h₃ in
      (p + added, omega (arith, sum), signed signer p e₁ (guard-eq-ok _ _ e₂) e₃ refl rest)

  -- A consensus that validate accepts is for the given block, each of its signatures is a precommit
  -- of its vote by a validator, and the powers, one for each signature, make more than two thirds
  -- of the total.
  pub validate_sound :
      (v : Consensus) (block_hash genesis : Hash) (vs : ValidatorSet)
      → validate c v block_hash genesis vs ≡ ok tt
      → (v.vote.block_hash ≡ block_hash)
        × ((power : ℕ) × SignedBy v.vote genesis vs v.signatures power
            × (Validators.total_power vs * 2 < power * 3))
  unfolding validate
  validate_sound v block_hash genesis vs h =
      let (_, e₁, h₁) =
        >>=-eq-ok (guard (FixedBytes.equals v.vote.block_hash block_hash) block_hash_mismatch) _
          h in
      let (power, e₂, h₂) = >>=-eq-ok (signed_power c v.vote genesis vs v.signatures 0) _ h₁ in
      let (added, sum, signers) = signed_power_sound v.vote genesis vs v.signatures 0 power e₂ in
      let more = ltb→lt _ _ (guard-eq-ok _ _ h₂) in
      (equals→eq _ _ (guard-eq-ok _ _ e₁), (added, signers, omega (arith, more, sum)))

  repeated_power :
      (vote : Vote) (genesis : Hash) (vs : ValidatorSet) (sign : Signature) (signer : Address)
      (p : ℕ)
      → vote_signer c type_precommit vote sign genesis ≡ ok signer
      → Validators.exists vs signer ≡ true
      → Validators.power_of vs signer ≡ ok p
      → (n start : ℕ) → signed_power c vote genesis vs (replicate n sign) start ≡ ok (start + n * p)
  unfolding signed_power
  repeated_power vote genesis vs sign signer p e₁ e₂ e₃ zero start = ap ok {x = start} (omega arith)
  repeated_power vote genesis vs sign signer p e₁ e₂ e₃ (suc n) start =
      rw (e₁, e₂, e₃)
        (repeated_power vote genesis vs sign signer p e₁ e₂ e₃ n (start + p)
          ∙ ap ok {x = start + p + n * p} {y = start + suc n * p} (grind arith))

  -- A consensus with the same precommit of one validator n times is accepted for the block of its
  -- vote as soon as n times the validator's power is more than two thirds of the total.
  pub validate_repeated_signature :
      (vote : Vote) (genesis : Hash) (vs : ValidatorSet) (sign : Signature) (signer : Address)
      (p n : ℕ)
      → vote_signer c type_precommit vote sign genesis ≡ ok signer
      → Validators.exists vs signer ≡ true
      → Validators.power_of vs signer ≡ ok p
      → Validators.total_power vs * 2 < n * p * 3
      → validate c
          (record { vote = vote; signatures = replicate n sign })
          vote.block_hash
          genesis
          vs
        ≡ ok tt
  unfolding validate
  validate_repeated_signature vote genesis vs sign signer p n e₁ e₂ e₃ h =
      rw (equals_refl vote.block_hash, repeated_power vote genesis vs sign signer p e₁ e₂ e₃ n 0)
        (ap (λ b. guard b insufficient_signature_power) (lt→ltb _ _ (omega (arith, h))))
