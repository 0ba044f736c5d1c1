-- ===== src/Blockchain/Blocks.antt =====
-- packages/blockchain/src/block.ts
use uniqys_kit.Prelude.{
  ℕ, ◌^◌, ◌<◌, length, All, Result, ok, guard, ◌>>=◌, ◌>>◌, invalid_transaction_root,
  invalid_last_block_consensus_hash,
}
use uniqys_kit.Serialize.Integers.{Serializer, Deserializer}
use uniqys_kit.Serialize.Codec
use uniqys_kit.Serialize.Codec.{Fits, Part-then, Part-last}
use uniqys_kit.Serialize.Codec.Numbers.{Fits-uint64}
use uniqys_kit.Serialize.UInt64
use uniqys_kit.Types.FixedBytes
use uniqys_kit.Signature.{Hash, Crypto}
use uniqys_kit.Signature.Keys.{hash_deserialize, from_data}
use uniqys_kit.Signature.Recovery.{IsHash, Fits-hash}
use uniqys_kit.Blockchain.Transaction
use uniqys_kit.Blockchain.Transaction.{TransactionList}
use uniqys_kit.Blockchain.Votes.{
  Consensus, ConsensusInRange, consensus_serialize, consensus_deserialize, consensus_hash,
  Fits-consensus,
}

pub record BlockHeader : Type 0 where
  pub height : ℕ
  pub timestamp : ℕ
  pub last_block_hash : Hash
  pub transaction_root : Hash
  pub last_block_consensus_root : Hash
  pub next_validator_set_root : Hash
  pub app_state_hash : Hash

unfoldable pub header_serialize : Serializer BlockHeader
header_serialize h w = do
  w₁ ← UInt64.serialize h.height w
  w₂ ← UInt64.serialize h.timestamp w₁
  w₃ ← FixedBytes.serialize h.last_block_hash w₂
  w₄ ← FixedBytes.serialize h.transaction_root w₃
  w₅ ← FixedBytes.serialize h.last_block_consensus_root w₄
  w₆ ← FixedBytes.serialize h.next_validator_set_root w₅
  FixedBytes.serialize h.app_state_hash w₆

unfoldable pub header_deserialize : Deserializer BlockHeader
header_deserialize r = do
  (height, r₁) ← UInt64.deserialize r
  (timestamp, r₂) ← UInt64.deserialize r₁
  (last_block_hash, r₃) ← hash_deserialize r₂
  (transaction_root, r₄) ← hash_deserialize r₃
  (last_block_consensus_root, r₅) ← hash_deserialize r₄
  (next_validator_set_root, r₆) ← hash_deserialize r₅
  (app_state_hash, r₇) ← hash_deserialize r₆
  ok (
    record {
      height = height;
      timestamp = timestamp;
      last_block_hash = last_block_hash;
      transaction_root = transaction_root;
      last_block_consensus_root = last_block_consensus_root;
      next_validator_set_root = next_validator_set_root;
      app_state_hash = app_state_hash;
    },
    r₇,
  )

pub record BlockBody : Type 0 where
  pub transaction_list : TransactionList
  pub last_block_consensus : Consensus

unfoldable pub body_serialize : Serializer BlockBody
body_serialize b w = do
  w₁ ← Transaction.list_serialize b.transaction_list w
  consensus_serialize b.last_block_consensus w₁

unfoldable pub body_deserialize : Deserializer BlockBody
body_deserialize r = do
  (transactions, r₁) ← Transaction.list_deserialize r
  (consensus, r₂) ← consensus_deserialize r₁
  ok (record { transaction_list = transactions; last_block_consensus = consensus }, r₂)

pub record Block : Type 0 where
  pub header : BlockHeader
  pub body : BlockBody

unfoldable pub block_serialize : Serializer Block
block_serialize b w = do w₁ ← header_serialize b.header w; body_serialize b.body w₁

unfoldable pub block_deserialize : Deserializer Block
block_deserialize r = do
  (header, r₁) ← header_deserialize r
  (body, r₂) ← body_deserialize r₁
  ok (record { header = header; body = body }, r₂)

module _ (c : Crypto) where
  unfoldable pub header_hash : BlockHeader → Result Hash
  header_hash h = do bytes ← Codec.serialize header_serialize h; ok (from_data c bytes)

  -- A block's hash is its header's.
  unfoldable pub block_hash : Block → Result Hash
  unfolding header_hash
  block_hash b = header_hash b.header

  unfoldable pub body_validate : BlockBody → BlockHeader → Result (Unit {0})
  body_validate b header = do
    transactions ← Transaction.list_hash c b.transaction_list
    guard (FixedBytes.equals header.transaction_root transactions) invalid_transaction_root
    consensus ← consensus_hash c b.last_block_consensus
    guard (FixedBytes.equals header.last_block_consensus_root consensus)
        invalid_last_block_consensus_hash

  unfoldable pub block_validate : Block → Result (Unit {0})
  unfolding body_validate
  block_validate b = body_validate b.body b.header

  -- Block.construct
  unfoldable pub construct : ℕ → ℕ → Hash → Hash → Hash → TransactionList → Consensus → Result Block
  construct height timestamp last_block_hash next_validator_set app_state_hash transactions
        last_consensus =
      do
        transaction_root ← Transaction.list_hash c transactions
        consensus_root ← consensus_hash c last_consensus
        ok (record {
          header = record {
            height = height;
            timestamp = timestamp;
            last_block_hash = last_block_hash;
            transaction_root = transaction_root;
            last_block_consensus_root = consensus_root;
            next_validator_set_root = next_validator_set;
            app_state_hash = app_state_hash;
          };
          body = record { transaction_list = transactions; last_block_consensus = last_consensus };
        })

pub record HeaderInRange (h : BlockHeader) : Type 0 where
  pub height : h.height < 2 ^ 48
  pub timestamp : h.timestamp < 2 ^ 48
  pub last_block_hash : IsHash h.last_block_hash
  pub transaction_root : IsHash h.transaction_root
  pub last_block_consensus_root : IsHash h.last_block_consensus_root
  pub next_validator_set_root : IsHash h.next_validator_set_root
  pub app_state_hash : IsHash h.app_state_hash

pub Fits-header : (h : BlockHeader) → HeaderInRange h → Fits header_serialize header_deserialize h
unfolding header_serialize header_deserialize
Fits-header h fits =
    Part-then UInt64.serialize UInt64.deserialize _ (Fits-uint64 h.height fits.height) (
      Part-then UInt64.serialize UInt64.deserialize _ (Fits-uint64 h.timestamp fits.timestamp) (
        Part-then FixedBytes.serialize hash_deserialize _
          (Fits-hash h.last_block_hash fits.last_block_hash)
          (Part-then FixedBytes.serialize hash_deserialize _
            (Fits-hash h.transaction_root fits.transaction_root)
            (Part-then FixedBytes.serialize hash_deserialize _
              (Fits-hash h.last_block_consensus_root fits.last_block_consensus_root)
              (Part-then FixedBytes.serialize hash_deserialize _
                (Fits-hash h.next_validator_set_root fits.next_validator_set_root)
                (Part-last FixedBytes.serialize hash_deserialize
                  (λ a. record h { app_state_hash = a })
                  (Fits-hash h.app_state_hash fits.app_state_hash)))))))

pub record BodyInRange (b : BlockBody) : Type 0 where
  pub few : length b.transaction_list < 2 ^ 32
  pub transactions : All Transaction.InRange b.transaction_list
  pub consensus : ConsensusInRange b.last_block_consensus

pub Fits-body : (b : BlockBody) → BodyInRange b → Fits body_serialize body_deserialize b
unfolding body_serialize body_deserialize
Fits-body b fits =
    Part-then Transaction.list_serialize Transaction.list_deserialize _
      (Transaction.Fits-transaction_list b.transaction_list fits.few fits.transactions)
      (Part-last consensus_serialize consensus_deserialize
        (λ c. record { transaction_list = b.transaction_list; last_block_consensus = c })
        (Fits-consensus b.last_block_consensus fits.consensus))

pub Fits-block :
    (b : Block)
    → HeaderInRange b.header
    → BodyInRange b.body
    → Fits block_serialize block_deserialize b
unfolding block_serialize block_deserialize
Fits-block b header body =
    Part-then header_serialize header_deserialize _ (Fits-header b.header header) (
      Part-last body_serialize body_deserialize (λ x. record { header = b.header; body = x })
        (Fits-body b.body body))
