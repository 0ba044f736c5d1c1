-- ===== src/Protocol/Messages.antt =====
-- packages/protocol/src/message.ts
use uniqys_kit.Prelude.{ℕ, List, ◌==◌, if◌then◌else◌, ok, err, ◌>>=◌, unknown_message_code}
use uniqys_kit.Serialize.Integers.{Serializer, Deserializer}
use uniqys_kit.Serialize.Lists
use uniqys_kit.Serialize.UInt8
use uniqys_kit.Serialize.UInt32
use uniqys_kit.Serialize.UInt64
use uniqys_kit.Types.FixedBytes
use uniqys_kit.Signature.{Hash}
use uniqys_kit.Signature.Keys.{hash_deserialize}
use uniqys_kit.Blockchain.Transaction
use uniqys_kit.Blockchain.Transaction.{Transaction}
use uniqys_kit.Blockchain.Validators.{ValidatorSet, set_serialize, set_deserialize}
use uniqys_kit.Blockchain.Votes.{Consensus, consensus_serialize, consensus_deserialize}
use uniqys_kit.Blockchain.Blocks.{
  Block, BlockHeader, BlockBody, block_serialize, block_deserialize, header_serialize,
  header_deserialize, body_serialize, body_deserialize,
}
use uniqys_kit.Blockchain.Messages
use uniqys_kit.Blockchain.Messages.{ConsensusMessage}

-- enum Message.Type
pub data MessageType : Type 0 where
  event : MessageType
  request : MessageType
  response : MessageType

pub record Hello : Type 0 where
  pub height : ℕ
  pub genesis : Hash

pub record NewBlock : Type 0 where
  pub block : Block
  pub consensus : Consensus

pub record ConsentedHeader : Type 0 where
  pub header : BlockHeader
  pub consensus : Consensus
  pub validator_set : ValidatorSet

-- GetHeaders and GetBodies
pub record Range : Type 0 where
  pub from : ℕ
  pub count : ℕ

pub data Message : Type 0 where
  hello : Hello → Message
  new_transaction : Transaction → Message
  new_block : NewBlock → Message
  new_block_height : ℕ → Message
  new_consensus_message : ConsensusMessage → Message
  get_consented_header : ℕ → Message
  consented_header : ConsentedHeader → Message
  get_headers : Range → Message
  headers : List BlockHeader → Message
  get_bodies : Range → Message
  bodies : List BlockBody → Message

unfoldable pub code : Message → ℕ
code (hello m) = 0
code (new_transaction tx) = 16
code (new_block m) = 17
code (new_block_height n) = 18
code (new_consensus_message m) = 19
code (get_consented_header n) = 32
code (consented_header m) = 48
code (get_headers m) = 33
code (headers hs) = 49
code (get_bodies m) = 34
code (bodies bs) = 50

unfoldable pub type_of : Message → MessageType
type_of (hello m) = event
type_of (new_transaction tx) = event
type_of (new_block m) = event
type_of (new_block_height n) = event
type_of (new_consensus_message m) = event
type_of (get_consented_header n) = request
type_of (consented_header m) = response
type_of (get_headers m) = request
type_of (headers hs) = response
type_of (get_bodies m) = request
type_of (bodies bs) = response

unfoldable pub hello_serialize : Serializer Hello
hello_serialize m w = do w₁ ← UInt64.serialize m.height w; FixedBytes.serialize m.genesis w₁

unfoldable pub hello_deserialize : Deserializer Hello
hello_deserialize r = do
  (height, r₁) ← UInt64.deserialize r
  (genesis, r₂) ← hash_deserialize r₁
  ok (record { height = height; genesis = genesis }, r₂)

unfoldable pub new_block_serialize : Serializer NewBlock
new_block_serialize m w = do w₁ ← block_serialize m.block w; consensus_serialize m.consensus w₁

unfoldable pub new_block_deserialize : Deserializer NewBlock
new_block_deserialize r = do
  (block, r₁) ← block_deserialize r
  (consensus, r₂) ← consensus_deserialize r₁
  ok (record { block = block; consensus = consensus }, r₂)

unfoldable pub consented_header_serialize : Serializer ConsentedHeader
consented_header_serialize m w = do
  w₁ ← header_serialize m.header w
  w₂ ← consensus_serialize m.consensus w₁
  set_serialize m.validator_set w₂

unfoldable pub consented_header_deserialize : Deserializer ConsentedHeader
consented_header_deserialize r = do
  (header, r₁) ← header_deserialize r
  (consensus, r₂) ← consensus_deserialize r₁
  (vs, r₃) ← set_deserialize r₂
  ok (record { header = header; consensus = consensus; validator_set = vs }, r₃)

unfoldable pub range_serialize : Serializer Range
range_serialize m w = do w₁ ← UInt64.serialize m.from w; UInt32.serialize m.count w₁

unfoldable pub range_deserialize : Deserializer Range
range_deserialize r = do
  (from, r₁) ← UInt64.deserialize r
  (count, r₂) ← UInt32.deserialize r₁
  ok (record { from = from; count = count }, r₂)

unfoldable pub headers_serialize : Serializer (List BlockHeader)
headers_serialize = Lists.serialize header_serialize

unfoldable pub headers_deserialize : Deserializer (List BlockHeader)
headers_deserialize = Lists.deserialize header_deserialize

unfoldable pub bodies_serialize : Serializer (List BlockBody)
bodies_serialize = Lists.serialize body_serialize

unfoldable pub bodies_deserialize : Deserializer (List BlockBody)
bodies_deserialize = Lists.deserialize body_deserialize

-- The method serialize of each class.
unfoldable pub payload_serialize : Serializer Message
payload_serialize (hello m) w = hello_serialize m w
payload_serialize (new_transaction tx) w = Transaction.serialize tx w
payload_serialize (new_block m) w = new_block_serialize m w
payload_serialize (new_block_height n) w = UInt64.serialize n w
payload_serialize (new_consensus_message m) w = Messages.serialize m w
payload_serialize (get_consented_header n) w = UInt64.serialize n w
payload_serialize (consented_header m) w = consented_header_serialize m w
payload_serialize (get_headers m) w = range_serialize m w
payload_serialize (headers hs) w = headers_serialize hs w
payload_serialize (get_bodies m) w = range_serialize m w
payload_serialize (bodies bs) w = bodies_serialize bs w

-- Message.serialize
unfoldable pub serialize : Serializer Message
unfolding code payload_serialize
serialize m w = do w₁ ← UInt8.serialize (code m) w; payload_serialize m w₁

-- `return new Class(value)` after a read
unfoldable pub reading {ℓ} : {A : Type ℓ} → Deserializer A → (A → Message) → Deserializer Message
reading d make r = do (value, r₁) ← d r; ok (make value, r₁)

-- switch (code)
unfoldable pub read_coded : ℕ → Deserializer Message
unfolding reading
read_coded code =
    if code == 0
    then reading hello_deserialize hello
    else if code == 16
    then reading Transaction.deserialize new_transaction
    else if code == 17
    then reading new_block_deserialize new_block
    else if code == 18
    then reading UInt64.deserialize new_block_height
    else if code == 19
    then reading Messages.deserialize new_consensus_message
    else if code == 32
    then reading UInt64.deserialize get_consented_header
    else if code == 48
    then reading consented_header_deserialize consented_header
    else if code == 33
    then reading range_deserialize get_headers
    else if code == 49
    then reading headers_deserialize headers
    else if code == 34
    then reading range_deserialize get_bodies
    else if code == 50
    then reading bodies_deserialize bodies
    else (λ r. err unknown_message_code)

unfoldable pub deserialize : Deserializer Message
unfolding read_coded
deserialize r = do (code, r₁) ← UInt8.deserialize r; read_coded code r₁
