-- ===== src/Serialize/UInt64.antt =====
-- packages/serialize/src/index.ts: namespace UInt64, of 48 bits in use
use uniqys_kit.Prelude.{ℕ, ◌-◌, ◌^◌, ltb, if◌then◌else◌, ok, err, out_of_48bit_range, ◌>>=◌}
use uniqys_kit.Serialize.Buffer.{ensure, consume}
use uniqys_kit.Serialize.Integers.{Serializer, Deserializer, read_uint_be, write_uint_be}

unfoldable pub serialize : Serializer ℕ
serialize n w =
    if ltb (2 ^ 48 - 1) n
    then err out_of_48bit_range
    else (let (slice, w') = ensure 8 w in write_uint_be slice n 2 6 w')

unfoldable pub deserialize : Deserializer ℕ
deserialize r = let (bytes, r') = consume 8 r in do n ← read_uint_be 2 6 bytes; ok (n, r')
