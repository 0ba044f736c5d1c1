-- ===== src/Blockchain/Messages/RoundTrip.antt =====
-- packages/blockchain/src/consensus.ts and block.ts: messages and blocks survive the wire, and the
-- digests of votes are taken of different bytes for different votes.
use uniqys_kit.Prelude.{ℕ, ◌^◌, ◌<◌, ◌≡◌, ap, ok, ◌>>=◌}
use uniqys_kit.Serialize.Integers.{Serializer, Deserializer}
use uniqys_kit.Serialize.Codec
use uniqys_kit.Serialize.Codec.{Part, Part-then, Part-last, Fits-injective}
use uniqys_kit.Serialize.Codec.Numbers.{Fits-uint8}
use uniqys_kit.Serialize.UInt8
use uniqys_kit.Types.FixedBytes
use uniqys_kit.Signature.{Hash}
use uniqys_kit.Signature.Keys.{hash_deserialize}
use uniqys_kit.Signature.Recovery.{IsHash, Fits-hash}
use uniqys_kit.Blockchain.Votes.{
  Vote, VoteInRange, vote_serialize, vote_deserialize, write_payload, vote_payload, Fits-vote,
}
use uniqys_kit.Blockchain.Blocks.{
  Block, HeaderInRange, BodyInRange, block_serialize, block_deserialize, Fits-block,
}
use uniqys_kit.Blockchain.Messages.{
  ConsensusMessage, MessageInRange, serialize, deserialize, Fits-message,
}

-- A consensus message whose numbers and hashes fit the wire format is read back as it was written.
pub deserialize-serialize :
    (m : ConsensusMessage)
    → MessageInRange m
    → (Codec.serialize serialize m >>= Codec.deserialize deserialize) ≡ ok m
deserialize-serialize m fits =
    Codec.deserialize-serialize serialize deserialize m (Fits-message m fits)

-- A block whose numbers and hashes fit the wire format is read back as it was written.
pub block_deserialize-serialize :
    (b : Block)
    → HeaderInRange b.header
    → BodyInRange b.body
    → (Codec.serialize block_serialize b >>= Codec.deserialize block_deserialize) ≡ ok b
block_deserialize-serialize b header body =
    Codec.deserialize-serialize block_serialize block_deserialize b (Fits-block b header body)

pub record Payload : Type 0 where
  pub type : ℕ
  pub vote : Vote
  pub genesis : Hash

abbrev write : Serializer Payload
write p w = write_payload p.type p.vote p.genesis w

read : Deserializer Payload
read r = do
  (genesis, r₁) ← hash_deserialize r
  (type, r₂) ← UInt8.deserialize r₁
  (vote, r₃) ← vote_deserialize r₂
  ok (record { type = type; vote = vote; genesis = genesis }, r₃)

record PayloadInRange (p : Payload) : Type 0 where
  type : p.type < 2 ^ 8
  vote : VoteInRange p.vote
  genesis : IsHash p.genesis

Fits-payload : (p : Payload) → PayloadInRange p → Part (write p) read p
unfolding write_payload read
Fits-payload p fits =
    Part-then FixedBytes.serialize hash_deserialize _ (Fits-hash p.genesis fits.genesis) (
      Part-then UInt8.serialize UInt8.deserialize _ (Fits-uint8 p.type fits.type) (
        Part-last vote_serialize vote_deserialize (λ v. record p { vote = v })
          (Fits-vote p.vote fits.vote)))

-- Digests are taken of the same bytes only if the type of the message, the vote and the genesis
-- hash are the same.
pub vote_payload-injective :
    (t t' : ℕ) (v v' : Vote) (g g' : Hash)
    → t < 2 ^ 8
    → t' < 2 ^ 8
    → VoteInRange v
    → VoteInRange v'
    → IsHash g
    → IsHash g'
    → vote_payload t v g ≡ vote_payload t' v' g'
    → (t ≡ t') × (v ≡ v') × (g ≡ g')
unfolding vote_payload Codec.serialize
vote_payload-injective t t' v v' g g' ht ht' hv hv' hg hg' e =
    let a : Payload = record { type = t; vote = v; genesis = g } in
    let b : Payload = record { type = t'; vote = v'; genesis = g' } in
    let same : a ≡ b =
      Fits-injective write read a b (Fits-payload a (record { type = ht; vote = hv; genesis = hg }))
        (Fits-payload b (record { type = ht'; vote = hv'; genesis = hg' })) e in
    (
      ap (λ (p : Payload). p.type) same,
      ap (λ (p : Payload). p.vote) same,
      ap (λ (p : Payload). p.genesis) same,
    )
