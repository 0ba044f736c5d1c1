-- ===== src/Serialize/SizedBuffer.antt =====
-- packages/serialize/src/index.ts: namespace SizedBuffer
use uniqys_kit.Prelude.{ℕ, List, length, ok, ◌>>=◌}
use uniqys_kit.Serialize.Buffer.{append, consume}
use uniqys_kit.Serialize.Integers.{Serializer, Deserializer}
use uniqys_kit.Serialize.UInt32

unfoldable pub serialize : Serializer (List ℕ)
serialize bytes w = do w' ← UInt32.serialize (length bytes) w; ok (append bytes w')

unfoldable pub deserialize : Deserializer (List ℕ)
deserialize r = do (byte_length, r') ← UInt32.deserialize r; ok (consume byte_length r')
