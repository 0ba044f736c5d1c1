-- ===== src/Serialize/UInt8.antt =====
-- packages/serialize/src/index.ts: namespace UInt8
use uniqys_kit.Prelude.{ℕ, ok, ◌>>=◌}
use uniqys_kit.Serialize.Buffer.{ensure, consume}
use uniqys_kit.Serialize.Integers.{Serializer, Deserializer, read_uint_be, write_uint_be}

unfoldable pub serialize : Serializer ℕ
unfolding write_uint_be
serialize n w = let (slice, w') = ensure 1 w in write_uint_be slice n 0 1 w'

unfoldable pub deserialize : Deserializer ℕ
unfolding read_uint_be
deserialize r = let (bytes, r') = consume 1 r in do n ← read_uint_be 0 1 bytes; ok (n, r')
