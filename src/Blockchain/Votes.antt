-- ===== src/Blockchain/Votes.antt =====
-- packages/blockchain/src/consensus.ts: Vote, Consensus and the digests of votes
pub mod Quorum
pub mod Agreement
use uniqys_kit.Prelude.{
  ℕ, ◌+◌, ◌*◌, ◌^◌, ◌<◌, List, [], ◌∷◌, ◌++◌, ltb, length, All, Result, ok, err, guard, ◌>>=◌, ◌>>◌,
  of_option, range_error, block_hash_mismatch, not_exists_in_validator_set,
  insufficient_signature_power,
}
use uniqys_kit.Serialize.Buffer.{BufferWriter, new_writer, contents}
use uniqys_kit.Serialize.Integers.{Serializer, Deserializer}
use uniqys_kit.Serialize.Codec
use uniqys_kit.Serialize.Codec.{Fits, Part-then, Part-last}
use uniqys_kit.Serialize.Codec.Numbers.{Fits-uint32, Fits-uint64}
use uniqys_kit.Serialize.Codec.Collections.{Fits-list}
use uniqys_kit.Serialize.UInt8
use uniqys_kit.Serialize.UInt32
use uniqys_kit.Serialize.UInt64
use uniqys_kit.Serialize.Lists
use uniqys_kit.Types.FixedBytes
use uniqys_kit.Signature.{Hash, Address, Signature, Crypto}
use uniqys_kit.Signature.Keys.{hash_deserialize, signature_deserialize, from_data, address}
use uniqys_kit.Signature.Recovery.{IsHash, IsSignature, Fits-hash, Fits-signature}
use uniqys_kit.Blockchain.MerkleTree.{root?}
use uniqys_kit.Blockchain.Validators
use uniqys_kit.Blockchain.Validators.{ValidatorSet}

pub record Vote : Type 0 where
  pub height : ℕ
  pub round : ℕ
  pub block_hash : Hash

unfoldable pub vote_serialize : Serializer Vote
vote_serialize v w = do
  w₁ ← UInt64.serialize v.height w
  w₂ ← UInt32.serialize v.round w₁
  FixedBytes.serialize v.block_hash w₂

unfoldable pub vote_deserialize : Deserializer Vote
vote_deserialize r = do
  (height, r₁) ← UInt64.deserialize r
  (round, r₂) ← UInt32.deserialize r₁
  (block_hash, r₃) ← hash_deserialize r₂
  ok (record { height = height; round = round; block_hash = block_hash }, r₃)

-- enum MessageType
abbrev pub type_proposal : ℕ
type_proposal = 0

abbrev pub type_prevote : ℕ
type_prevote = 1

abbrev pub type_precommit : ℕ
type_precommit = 2

pub record Consensus : Type 0 where
  pub vote : Vote
  pub signatures : List Signature

unfoldable pub consensus_serialize : Serializer Consensus
consensus_serialize v w = do
  w₁ ← vote_serialize v.vote w
  Lists.serialize FixedBytes.serialize v.signatures w₁

unfoldable pub consensus_deserialize : Deserializer Consensus
consensus_deserialize r = do
  (vote, r₁) ← vote_deserialize r
  (signs, r₂) ← Lists.deserialize signature_deserialize r₁
  ok (record { vote = vote; signatures = signs }, r₂)

-- What the digest of a vote is taken of.
unfoldable pub write_payload : ℕ → Vote → Hash → BufferWriter → Result BufferWriter
write_payload type vote genesis w = do
  w₁ ← FixedBytes.serialize genesis w
  w₂ ← UInt8.serialize type w₁
  vote_serialize vote w₂

unfoldable pub vote_payload : ℕ → Vote → Hash → Result (List ℕ)
unfolding write_payload
vote_payload type vote genesis = do w ← write_payload type vote genesis new_writer; ok (contents w)

module _ (c : Crypto) where
  -- PrevoteMessage.digest and PrecommitMessage.digest, which differ in the type written.
  unfoldable pub vote_digest : ℕ → Vote → Hash → Result Hash
  vote_digest type vote genesis = do bytes ← vote_payload type vote genesis; ok (from_data c bytes)

  -- signerAddress of a PrevoteMessage or PrecommitMessage
  unfoldable pub vote_signer : ℕ → Vote → Signature → Hash → Result Address
  vote_signer type vote sign genesis = do
    digest ← vote_digest type vote genesis
    address c digest sign

  -- The hash field of each Signature.
  unfoldable pub signature_hashes : List Signature → List Hash
  signature_hashes [] = []
  signature_hashes (s ∷ ss) = from_data c s ∷ signature_hashes ss

  unfoldable pub consensus_hash : Consensus → Result Hash
  consensus_hash v = do
    bytes ← Codec.serialize vote_serialize v.vote
    root ← of_option range_error (root? (from_data c) (signature_hashes v.signatures))
    ok (from_data c (from_data c bytes ++ root))

  -- The loop of Consensus.validate.
  unfoldable pub signed_power : Vote → Hash → ValidatorSet → List Signature → ℕ → Result ℕ
  signed_power vote genesis vs [] power = ok power
  signed_power vote genesis vs (sign ∷ signs) power = do
    signer ← vote_signer type_precommit vote sign genesis
    guard (Validators.exists vs signer) not_exists_in_validator_set
    p ← Validators.power_of vs signer
    signed_power vote genesis vs signs (power + p)

  unfoldable pub validate : Consensus → Hash → Hash → ValidatorSet → Result (Unit {0})
  validate v block_hash genesis vs = do
    guard (FixedBytes.equals v.vote.block_hash block_hash) block_hash_mismatch
    power ← signed_power v.vote genesis vs v.signatures 0
    guard (ltb (Validators.total_power vs * 2) (power * 3)) insufficient_signature_power

pub record VoteInRange (v : Vote) : Type 0 where
  pub height : v.height < 2 ^ 48
  pub round : v.round < 2 ^ 32
  pub block_hash : IsHash v.block_hash

pub Fits-vote : (v : Vote) → VoteInRange v → Fits vote_serialize vote_deserialize v
unfolding vote_serialize vote_deserialize
Fits-vote v fits =
    Part-then UInt64.serialize UInt64.deserialize _ (Fits-uint64 v.height fits.height) (
      Part-then UInt32.serialize UInt32.deserialize _ (Fits-uint32 v.round fits.round) (
        Part-last FixedBytes.serialize hash_deserialize
          (λ h. record { height = v.height; round = v.round; block_hash = h })
          (Fits-hash v.block_hash fits.block_hash)))

pub record ConsensusInRange (v : Consensus) : Type 0 where
  pub vote : VoteInRange v.vote
  pub few : length v.signatures < 2 ^ 32
  pub signatures : All IsSignature v.signatures

AllFit :
    (ss : List Signature)
    → All IsSignature ss
    → All (Fits FixedBytes.serialize signature_deserialize) ss
AllFit [] h = h
AllFit (s ∷ ss) (h, hs) = (Fits-signature s h, AllFit ss hs)

pub Fits-consensus :
    (v : Consensus) → ConsensusInRange v → Fits consensus_serialize consensus_deserialize v
unfolding consensus_serialize consensus_deserialize
Fits-consensus v fits = Part-then vote_serialize vote_deserialize _ (Fits-vote v.vote fits.vote) (
    Part-last (Lists.serialize FixedBytes.serialize) (Lists.deserialize signature_deserialize)
      (λ ss. record { vote = v.vote; signatures = ss })
      (Fits-list FixedBytes.serialize signature_deserialize v.signatures fits.few
        (AllFit v.signatures fits.signatures)))
