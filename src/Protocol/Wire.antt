-- ===== src/Protocol/Wire.antt =====
-- packages/protocol/src/message.ts: messages survive the wire.
use uniqys_kit.Prelude.{
  refl, sym, subst, ℕ, ◌^◌, ◌<◌, ◌≡◌, List, [], ◌∷◌, length, All, arith, ok, ◌>>=◌,
}
use uniqys_kit.Serialize.Integers.{Serializer, Deserializer}
use uniqys_kit.Serialize.Codec
use uniqys_kit.Serialize.Codec.{Part, Fits, Part-then, Part-last}
use uniqys_kit.Serialize.Codec.Numbers.{Fits-uint8, Fits-uint32, Fits-uint64}
use uniqys_kit.Serialize.Codec.Collections.{Fits-list}
use uniqys_kit.Serialize.UInt8
use uniqys_kit.Serialize.UInt32
use uniqys_kit.Serialize.UInt64
use uniqys_kit.Types.FixedBytes
use uniqys_kit.Signature.Keys.{hash_deserialize}
use uniqys_kit.Signature.Recovery.{IsHash, Fits-hash}
use uniqys_kit.Blockchain.Transaction
use uniqys_kit.Blockchain.Validators
use uniqys_kit.Blockchain.Validators.{set_serialize, set_deserialize}
use uniqys_kit.Blockchain.Votes.{
  ConsensusInRange, consensus_serialize, consensus_deserialize, Fits-consensus,
}
use uniqys_kit.Blockchain.Blocks.{
  BlockHeader, BlockBody, HeaderInRange, BodyInRange, block_serialize, block_deserialize,
  header_serialize, header_deserialize, body_serialize, body_deserialize, Fits-block, Fits-header,
  Fits-body,
}
use uniqys_kit.Blockchain.Messages
use uniqys_kit.Protocol.Messages.{
  Message, hello, new_transaction, new_block, new_block_height, new_consensus_message,
  get_consented_header, consented_header, get_headers, headers, get_bodies, bodies, Hello, NewBlock,
  ConsentedHeader, Range, hello_serialize, hello_deserialize, new_block_serialize,
  new_block_deserialize, consented_header_serialize, consented_header_deserialize, range_serialize,
  range_deserialize, headers_serialize, headers_deserialize, bodies_serialize, bodies_deserialize,
  payload_serialize, serialize, deserialize, code, read_coded, reading,
}

-- Values that the wire format can hold.
pub record RangeInRange (m : Range) : Type 0 where
  pub from : m.from < 2 ^ 48
  pub count : m.count < 2 ^ 32

pub record ConsentedInRange (m : ConsentedHeader) : Type 0 where
  pub header : HeaderInRange m.header
  pub consensus : ConsensusInRange m.consensus
  pub few : length m.validator_set < 2 ^ 32
  pub validators : All Validators.InRange m.validator_set

abbrev pub MessageInRange : Message → Type 0
MessageInRange (hello m) = (m.height < 2 ^ 48) × IsHash m.genesis
MessageInRange (new_transaction tx) = Transaction.InRange tx
MessageInRange (new_block m) =
    HeaderInRange m.block.header × BodyInRange m.block.body × ConsensusInRange m.consensus
MessageInRange (new_block_height n) = n < 2 ^ 48
MessageInRange (new_consensus_message m) = Messages.MessageInRange m
MessageInRange (get_consented_header n) = n < 2 ^ 48
MessageInRange (consented_header m) = ConsentedInRange m
MessageInRange (get_headers m) = RangeInRange m
MessageInRange (headers hs) = (length hs < 2 ^ 32) × All HeaderInRange hs
MessageInRange (get_bodies m) = RangeInRange m
MessageInRange (bodies bs) = (length bs < 2 ^ 32) × All BodyInRange bs

Fits-hello :
    (m : Hello) → m.height < 2 ^ 48 → IsHash m.genesis → Fits hello_serialize hello_deserialize m
unfolding hello_serialize hello_deserialize
Fits-hello m height genesis =
    Part-then UInt64.serialize UInt64.deserialize _ (Fits-uint64 m.height height) (
      Part-last FixedBytes.serialize hash_deserialize (λ h. record m { genesis = h })
        (Fits-hash m.genesis genesis))

Fits-new_block :
    (m : NewBlock)
    → HeaderInRange m.block.header
    → BodyInRange m.block.body
    → ConsensusInRange m.consensus
    → Fits new_block_serialize new_block_deserialize m
unfolding new_block_serialize new_block_deserialize
Fits-new_block m h b c = Part-then block_serialize block_deserialize _ (Fits-block m.block h b) (
    Part-last consensus_serialize consensus_deserialize (λ x. record m { consensus = x })
      (Fits-consensus m.consensus c))

Fits-consented_header :
    (m : ConsentedHeader)
    → ConsentedInRange m
    → Fits consented_header_serialize consented_header_deserialize m
unfolding consented_header_serialize consented_header_deserialize
Fits-consented_header m fits =
    Part-then header_serialize header_deserialize _ (Fits-header m.header fits.header) (
      Part-then consensus_serialize consensus_deserialize _
        (Fits-consensus m.consensus fits.consensus)
        (Part-last set_serialize set_deserialize (λ x. record m { validator_set = x })
          (Validators.Fits-validator_set m.validator_set fits.few fits.validators)))

Fits-range : (m : Range) → RangeInRange m → Fits range_serialize range_deserialize m
unfolding range_serialize range_deserialize
Fits-range m fits = Part-then UInt64.serialize UInt64.deserialize _ (Fits-uint64 m.from fits.from) (
    Part-last UInt32.serialize UInt32.deserialize (λ x. record m { count = x })
      (Fits-uint32 m.count fits.count))

each_header :
    (hs : List BlockHeader)
    → All HeaderInRange hs
    → All (Fits header_serialize header_deserialize) hs
each_header [] h = h
each_header (x ∷ hs) (h, rest) = (Fits-header x h, each_header hs rest)

each_body :
    (bs : List BlockBody) → All BodyInRange bs → All (Fits body_serialize body_deserialize) bs
each_body [] h = h
each_body (x ∷ bs) (h, rest) = (Fits-body x h, each_body bs rest)

Fits-headers :
    (hs : List BlockHeader)
    → length hs < 2 ^ 32
    → All HeaderInRange hs
    → Fits headers_serialize headers_deserialize hs
unfolding headers_serialize headers_deserialize
Fits-headers hs few h = Fits-list header_serialize header_deserialize hs few (each_header hs h)

Fits-bodies :
    (bs : List BlockBody)
    → length bs < 2 ^ 32
    → All BodyInRange bs
    → Fits bodies_serialize bodies_deserialize bs
unfolding bodies_serialize bodies_deserialize
Fits-bodies bs few h = Fits-list body_serialize body_deserialize bs few (each_body bs h)

-- A code that is written in front of what its class writes.
coded {ℓ} :
    {A : Type ℓ} (n : ℕ) (s : Serializer A) (d : Deserializer A) (make : A → Message) (value : A)
    → n < 2 ^ 8
    → read_coded n ≡ reading d make
    → Fits s d value
    → Part (λ w. UInt8.serialize n w >>= s value) deserialize (make value)
unfolding deserialize reading
coded n s d make value small found fits =
    Part-then UInt8.serialize UInt8.deserialize read_coded (Fits-uint8 n small)
      (subst (λ f. Part (s value) f (make value)) (sym found) (Part-last s d make fits))

pub Fits-message : (m : Message) → MessageInRange m → Fits serialize deserialize m
unfolding serialize code payload_serialize read_coded
Fits-message (hello m) (h, g) =
    coded 0 hello_serialize hello_deserialize hello m (omega arith) refl (Fits-hello m h g)
Fits-message (new_transaction tx) h =
    coded 16 Transaction.serialize Transaction.deserialize new_transaction tx (omega arith) refl
      (Transaction.Fits-transaction tx h)
Fits-message (new_block m) (h, b, c) =
    coded 17 new_block_serialize new_block_deserialize new_block m (omega arith) refl
      (Fits-new_block m h b c)
Fits-message (new_block_height n) h =
    coded 18 UInt64.serialize UInt64.deserialize new_block_height n (omega arith) refl
      (Fits-uint64 n h)
Fits-message (new_consensus_message m) h =
    coded 19 Messages.serialize Messages.deserialize new_consensus_message m (omega arith) refl
      (Messages.Fits-message m h)
Fits-message (get_consented_header n) h =
    coded 32 UInt64.serialize UInt64.deserialize get_consented_header n (omega arith) refl
      (Fits-uint64 n h)
Fits-message (consented_header m) h =
    coded 48 consented_header_serialize consented_header_deserialize consented_header m
      (omega arith) refl (Fits-consented_header m h)
Fits-message (get_headers m) h =
    coded 33 range_serialize range_deserialize get_headers m (omega arith) refl (Fits-range m h)
Fits-message (headers hs) (few, h) =
    coded 49 headers_serialize headers_deserialize headers hs (omega arith) refl
      (Fits-headers hs few h)
Fits-message (get_bodies m) h =
    coded 34 range_serialize range_deserialize get_bodies m (omega arith) refl (Fits-range m h)
Fits-message (bodies bs) (few, h) =
    coded 50 bodies_serialize bodies_deserialize bodies bs (omega arith) refl (Fits-bodies bs few h)

-- Each message of the network protocol whose numbers, hashes and lists fit the wire format is read
-- back as it was written.
pub message_roundtrip :
    (m : Message)
    → MessageInRange m
    → (Codec.serialize serialize m >>= Codec.deserialize deserialize) ≡ ok m
message_roundtrip m fits = Codec.deserialize-serialize serialize deserialize m (Fits-message m fits)
