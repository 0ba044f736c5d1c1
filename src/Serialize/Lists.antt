-- ===== src/Serialize/Lists.antt =====
-- packages/serialize/src/index.ts: namespace List, over the serializer of the items
use uniqys_kit.Prelude.{ℕ, zero, suc, List, [], ◌∷◌, length, Result, ok, ◌>>=◌}
use uniqys_kit.Serialize.Buffer.{BufferWriter}
use uniqys_kit.Serialize.Integers.{Serializer, Deserializer}
use uniqys_kit.Serialize.UInt32

module _ {ℓ} {A : Type ℓ} where
  -- for (const item of list) { serializer(item, writer) }
  unfoldable pub write_items : Serializer A → List A → BufferWriter → Result BufferWriter
  write_items serializer [] w = ok w
  write_items serializer (item ∷ items) w = do
    w' ← serializer item w
    write_items serializer items w'

  unfoldable pub serialize : Serializer A → Serializer (List A)
  serialize serializer items w = do
    w' ← UInt32.serialize (length items) w
    write_items serializer items w'

  -- for (let i = 0; i < length; i++) { list.push(deserializer(reader)) }
  unfoldable pub read_items : Deserializer A → ℕ → Deserializer (List A)
  read_items deserializer zero r = ok ([], r)
  read_items deserializer (suc n) r = do
    (item, r') ← deserializer r
    (items, r'') ← read_items deserializer n r'
    ok (item ∷ items, r'')

  unfoldable pub deserialize : Deserializer A → Deserializer (List A)
  deserialize deserializer r = do (n, r') ← UInt32.deserialize r; read_items deserializer n r'
