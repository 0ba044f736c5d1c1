-- ===== src/Blockchain/Transaction.antt =====
-- packages/blockchain/src/transaction.ts
use uniqys_kit.Prelude.{
  ℕ, ◌^◌, ◌<◌, ◌≡◌, ap, ◌∙◌, ◌++◌, Bool, List, length, All, ok, ◌>>=◌, [], ◌∷◌, Result, of_option,
  range_error,
}
use uniqys_kit.Serialize.Integers.{Serializer, Deserializer}
use uniqys_kit.Serialize.Codec
use uniqys_kit.Serialize.Codec.{Fits, Part-then, Part-last, bytes-Part, bytes-Part_last}
use uniqys_kit.Serialize.Codec.Numbers.{Fits-uint8, bytes-uint8}
use uniqys_kit.Serialize.Codec.Collections.{Fits-sized_buffer, Fits-list}
use uniqys_kit.Serialize.UInt8
use uniqys_kit.Serialize.SizedBuffer
use uniqys_kit.Serialize.Lists
use uniqys_kit.Types.FixedBytes
use uniqys_kit.Types.FixedBytes.{Bytes}
use uniqys_kit.Signature.{Hash, Crypto}
use uniqys_kit.Signature.Keys.{from_data}
use uniqys_kit.Blockchain.MerkleTree.{root?}

-- enum TransactionType: what is read is any byte, so it is kept as a number.
abbrev pub normal : ℕ
normal = 0

abbrev pub event : ℕ
event = 1

pub record Transaction : Type 0 where
  pub kind : ℕ
  pub payload : Bytes

unfoldable pub serialize : Serializer Transaction
serialize tx w = do w' ← UInt8.serialize tx.kind w; SizedBuffer.serialize tx.payload w'

unfoldable pub deserialize : Deserializer Transaction
deserialize r = do
  (kind, r') ← UInt8.deserialize r
  (payload, r'') ← SizedBuffer.deserialize r'
  ok (record { kind = kind; payload = payload }, r'')

-- this.data.equals(other.data): the type is not compared.
unfoldable pub equals : Transaction → Transaction → Bool
equals a b = FixedBytes.equals a.payload b.payload

abbrev pub TransactionList : Type 0
TransactionList = List Transaction

unfoldable pub list_serialize : Serializer TransactionList
list_serialize = Lists.serialize serialize

unfoldable pub list_deserialize : Deserializer TransactionList
list_deserialize = Lists.deserialize deserialize

module _ (c : Crypto) where
  unfoldable pub hash : Transaction → Result Hash
  hash tx = do bytes ← Codec.serialize serialize tx; ok (from_data c bytes)

  -- MerkleTree.root over the hashes of the items
  unfoldable pub hashes : TransactionList → Result (List Hash)
  hashes [] = ok []
  hashes (tx ∷ txs) = do h ← hash tx; hs ← hashes txs; ok (h ∷ hs)

  unfoldable pub list_hash : TransactionList → Result Hash
  list_hash txs = do hs ← hashes txs; of_option range_error (root? (from_data c) hs)

-- Values that the wire format can hold.
pub record InRange (tx : Transaction) : Type 0 where
  pub kind : tx.kind < 2 ^ 8
  pub payload : length tx.payload < 2 ^ 32

pub Fits-transaction : (tx : Transaction) → InRange tx → Fits serialize deserialize tx
unfolding serialize deserialize
Fits-transaction tx fits =
    Part-then UInt8.serialize UInt8.deserialize _ (Fits-uint8 tx.kind fits.kind) (
      Part-last SizedBuffer.serialize SizedBuffer.deserialize
        (λ payload. record { kind = tx.kind; payload = payload })
        (Fits-sized_buffer tx.payload fits.payload))

-- The byte of the kind, and then the data.
pub bytes-Fits :
    (tx : Transaction) (fits : InRange tx)
    → (Fits-transaction tx fits).bytes ≡ tx.kind ∷ (Fits-sized_buffer tx.payload fits.payload).bytes
unfolding Fits-transaction
bytes-Fits tx fits =
    let kind = Fits-uint8 tx.kind fits.kind in
    let payload = Fits-sized_buffer tx.payload fits.payload in
    bytes-Part UInt8.serialize UInt8.deserialize _ kind (
      Part-last SizedBuffer.serialize SizedBuffer.deserialize
        (λ payload. record { kind = tx.kind; payload = payload }) payload)
    ∙ ap (λ (xs : List ℕ). kind.bytes ++ xs)
        (bytes-Part_last SizedBuffer.serialize SizedBuffer.deserialize
          (λ payload. record { kind = tx.kind; payload = payload }) payload)
    ∙ ap (λ (xs : List ℕ). xs ++ payload.bytes) (bytes-uint8 tx.kind fits.kind)

AllFit : (txs : TransactionList) → All InRange txs → All (Fits serialize deserialize) txs
AllFit [] h = h
AllFit (tx ∷ txs) (h, hs) = (Fits-transaction tx h, AllFit txs hs)

pub Fits-transaction_list :
    (txs : TransactionList)
    → length txs < 2 ^ 32
    → All InRange txs
    → Fits list_serialize list_deserialize txs
unfolding list_serialize list_deserialize
Fits-transaction_list txs few each = Fits-list serialize deserialize txs few (AllFit txs each)
