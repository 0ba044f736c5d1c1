-- ===== src/Blockchain/Messages.antt =====
-- packages/blockchain/src/consensus.ts: Proposal and ConsensusMessage
pub mod RoundTrip
use uniqys_kit.Prelude.{
  ℕ, ◌^◌, ◌<◌, Bool, true, false, ◌==◌, if◌then◌else◌, arith, Result, ok, err, ◌>>=◌, unknown_label,
}
use uniqys_kit.Serialize.Buffer.{new_writer, contents}
use uniqys_kit.Serialize.Integers.{Serializer, Deserializer}
use uniqys_kit.Serialize.Codec.{Fits, Part-then, Part-last}
use uniqys_kit.Serialize.Codec.Numbers.{Fits-uint8, Fits-uint32, Fits-uint64}
use uniqys_kit.Serialize.UInt8
use uniqys_kit.Serialize.UInt32
use uniqys_kit.Serialize.UInt64
use uniqys_kit.Types.FixedBytes
use uniqys_kit.Types.FixedBytes.{Bytes}
use uniqys_kit.Signature.{Hash, Address, Signature, Crypto}
use uniqys_kit.Signature.Keys
use uniqys_kit.Signature.Keys.{signature_deserialize, from_data}
use uniqys_kit.Signature.Recovery.{IsSignature, Fits-signature}
use uniqys_kit.Blockchain.Votes.{
  Vote, VoteInRange, vote_serialize, vote_deserialize, vote_digest, vote_signer, Fits-vote,
  type_proposal, type_prevote, type_precommit,
}
use uniqys_kit.Blockchain.Blocks.{
  Block, HeaderInRange, BodyInRange, block_serialize, block_deserialize, Fits-block,
}

pub record Proposal : Type 0 where
  pub height : ℕ
  pub round : ℕ
  pub locked_round : ℕ
  pub block : Block

unfoldable pub proposal_serialize : Serializer Proposal
proposal_serialize p w = do
  w₁ ← UInt64.serialize p.height w
  w₂ ← UInt32.serialize p.round w₁
  w₃ ← UInt32.serialize p.locked_round w₂
  block_serialize p.block w₃

unfoldable pub proposal_deserialize : Deserializer Proposal
proposal_deserialize r = do
  (height, r₁) ← UInt64.deserialize r
  (round, r₂) ← UInt32.deserialize r₁
  (locked_round, r₃) ← UInt32.deserialize r₂
  (block, r₄) ← block_deserialize r₃
  ok (record { height = height; round = round; locked_round = locked_round; block = block }, r₄)

pub record ProposalMessage : Type 0 where
  pub proposal : Proposal
  pub sign : Signature

pub record VoteMessage : Type 0 where
  pub vote : Vote
  pub sign : Signature

pub data ConsensusMessage : Type 0 where
  proposal : ProposalMessage → ConsensusMessage
  prevote : VoteMessage → ConsensusMessage
  precommit : VoteMessage → ConsensusMessage

unfoldable pub is_proposal : ConsensusMessage → Bool
is_proposal (proposal m) = true
is_proposal _ = false

unfoldable pub is_prevote : ConsensusMessage → Bool
is_prevote (prevote m) = true
is_prevote _ = false

unfoldable pub is_precommit : ConsensusMessage → Bool
is_precommit (precommit m) = true
is_precommit _ = false

unfoldable pub serialize : Serializer ConsensusMessage
serialize (proposal m) w = do
  w₁ ← UInt8.serialize type_proposal w
  w₂ ← proposal_serialize m.proposal w₁
  FixedBytes.serialize m.sign w₂
serialize (prevote m) w = do
  w₁ ← UInt8.serialize type_prevote w
  w₂ ← vote_serialize m.vote w₁
  FixedBytes.serialize m.sign w₂
serialize (precommit m) w = do
  w₁ ← UInt8.serialize type_precommit w
  w₂ ← vote_serialize m.vote w₁
  FixedBytes.serialize m.sign w₂

-- switch (label)
unfoldable pub read_labelled : ℕ → Deserializer ConsensusMessage
read_labelled label r =
    if label == type_proposal
    then (do
      (p, r₁) ← proposal_deserialize r
      (sign, r₂) ← signature_deserialize r₁
      ok (proposal (record { proposal = p; sign = sign }), r₂))
    else if label == type_prevote
    then (do
      (vote, r₁) ← vote_deserialize r
      (sign, r₂) ← signature_deserialize r₁
      ok (prevote (record { vote = vote; sign = sign }), r₂))
    else if label == type_precommit
    then (do
      (vote, r₁) ← vote_deserialize r
      (sign, r₂) ← signature_deserialize r₁
      ok (precommit (record { vote = vote; sign = sign }), r₂))
    else err unknown_label

unfoldable pub deserialize : Deserializer ConsensusMessage
unfolding read_labelled
deserialize r = do (label, r₁) ← UInt8.deserialize r; read_labelled label r₁

module _ (c : Crypto) where
  -- ProposalMessage.digest
  unfoldable pub proposal_digest : Proposal → Hash → Result Hash
  proposal_digest p genesis = do
    w₁ ← FixedBytes.serialize genesis new_writer
    w₂ ← UInt8.serialize type_proposal w₁
    w₃ ← proposal_serialize p w₂
    ok (from_data c (contents w₃))

  unfoldable pub signer_address : ConsensusMessage → Hash → Result Address
  signer_address (proposal m) genesis = do
    digest ← proposal_digest m.proposal genesis
    Keys.address c digest m.sign
  signer_address (prevote m) genesis = vote_signer c type_prevote m.vote m.sign genesis
  signer_address (precommit m) genesis = vote_signer c type_precommit m.vote m.sign genesis

  -- ConsensusMessage.proposal, prevote and precommit: `key` is the signer's private key.
  unfoldable pub sign_proposal : Proposal → Hash → Bytes → Result ProposalMessage
  sign_proposal p genesis key = do
    digest ← proposal_digest p genesis
    sign ← Keys.sign c digest key
    ok (record { proposal = p; sign = sign })

  -- `type` is that of prevote or precommit.
  unfoldable pub sign_vote : ℕ → Vote → Hash → Bytes → Result VoteMessage
  sign_vote type vote genesis key = do
    digest ← vote_digest c type vote genesis
    sign ← Keys.sign c digest key
    ok (record { vote = vote; sign = sign })

-- Values that the wire format can hold.
pub record ProposalInRange (p : Proposal) : Type 0 where
  pub height : p.height < 2 ^ 48
  pub round : p.round < 2 ^ 32
  pub locked_round : p.locked_round < 2 ^ 32
  pub header : HeaderInRange p.block.header
  pub body : BodyInRange p.block.body

pub Fits-proposal :
    (p : Proposal) → ProposalInRange p → Fits proposal_serialize proposal_deserialize p
unfolding proposal_serialize proposal_deserialize
Fits-proposal p fits =
    Part-then UInt64.serialize UInt64.deserialize _ (Fits-uint64 p.height fits.height) (
      Part-then UInt32.serialize UInt32.deserialize _ (Fits-uint32 p.round fits.round) (
        Part-then UInt32.serialize UInt32.deserialize _
          (Fits-uint32 p.locked_round fits.locked_round)
          (Part-last block_serialize block_deserialize (λ b. record p { block = b })
            (Fits-block p.block fits.header fits.body))))

abbrev pub MessageInRange : ConsensusMessage → Type 0
MessageInRange (proposal m) = ProposalInRange m.proposal × IsSignature m.sign
MessageInRange (prevote m) = VoteInRange m.vote × IsSignature m.sign
MessageInRange (precommit m) = VoteInRange m.vote × IsSignature m.sign

pub Fits-message : (m : ConsensusMessage) → MessageInRange m → Fits serialize deserialize m
unfolding serialize deserialize
Fits-message (proposal m) (p, s) =
    Part-then UInt8.serialize UInt8.deserialize _ (Fits-uint8 type_proposal (omega arith)) (
      Part-then proposal_serialize proposal_deserialize _ (Fits-proposal m.proposal p) (
        Part-last FixedBytes.serialize signature_deserialize (λ x. proposal (record m { sign = x }))
          (Fits-signature m.sign s)))
Fits-message (prevote m) (v, s) =
    Part-then UInt8.serialize UInt8.deserialize _ (Fits-uint8 type_prevote (omega arith)) (
      Part-then vote_serialize vote_deserialize _ (Fits-vote m.vote v) (
        Part-last FixedBytes.serialize signature_deserialize (λ x. prevote (record m { sign = x }))
          (Fits-signature m.sign s)))
Fits-message (precommit m) (v, s) =
    Part-then UInt8.serialize UInt8.deserialize _ (Fits-uint8 type_precommit (omega arith)) (
      Part-then vote_serialize vote_deserialize _ (Fits-vote m.vote v) (
        Part-last FixedBytes.serialize signature_deserialize
          (λ x. precommit (record m { sign = x })) (Fits-signature m.sign s)))
