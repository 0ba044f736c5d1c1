-- ===== src/Serialize/Int64.antt =====
-- packages/serialize/src/index.ts: namespace Int64, of 48 bits in use
use uniqys_kit.Prelude.{
  ℕ, ◌-◌, ◌^◌, Bool, ltb, leb, if◌then◌else◌, replicate, ok, err, out_of_48bit_range, ◌>>=◌,
}
use uniqys_kit.Prelude.Int.{ℤ, pos, negsuc}
use uniqys_kit.Serialize.Buffer.{ensure, write_through, consume}
use uniqys_kit.Serialize.Integers.{Serializer, Deserializer, read_int_be, write_int_be}

-- `n > 2 ** 47 - 1 || n < - (2 ** 47)`
unfoldable pub exceeds_range : ℤ → Bool
exceeds_range (pos n) = ltb (2 ^ 47 - 1) n
exceeds_range (negsuc n) = leb (2 ^ 47) n

-- `n < 0 ? 0xff : 0x00`
unfoldable pub fill_byte : ℤ → ℕ
fill_byte (pos n) = 0
fill_byte (negsuc n) = 0xff

unfoldable pub serialize : Serializer ℤ
serialize n w =
    if exceeds_range n
    then err out_of_48bit_range
    else (let (slice, w') = ensure 8 w in
        write_int_be slice n 2 6 (write_through slice 0 (replicate 8 (fill_byte n)) w'))

unfoldable pub deserialize : Deserializer ℤ
deserialize r = let (bytes, r') = consume 8 r in do n ← read_int_be 2 6 bytes; ok (n, r')
