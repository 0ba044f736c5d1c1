-- ===== src/Serialize/Integers.antt =====
-- packages/serialize/src/index.ts: the serializer types, and the big-endian reads and writes of
-- Buffer that UInt8, UInt32, UInt64 and Int64 call.
pub mod Digits
use uniqys_kit.Prelude.{
  ℕ, zero, suc, ◌+◌, ◌*◌, ◌-◌, ◌/◌, ◌%◌, ◌^◌, List, [], ◌∷◌, ltb, if◌then◌else◌, length, take, drop,
  Result, ok, err, range_error,
}
use uniqys_kit.Prelude.Int.{ℤ, pos, negsuc}
use uniqys_kit.Serialize.Buffer.{BufferWriter, BufferReader, write_through}

abbrev pub Serializer {ℓ} : Type ℓ → Type ℓ
Serializer A = A → BufferWriter → Result BufferWriter

abbrev pub Deserializer {ℓ} : Type ℓ → Type ℓ
Deserializer A = BufferReader → Result (A × BufferReader)

-- The `k` bytes of buf.writeUIntBE(n, …, k), the most significant first.
unfoldable pub be_bytes : ℕ → ℕ → List ℕ
be_bytes zero n = []
be_bytes (suc k) n = (n / 256 ^ k) ∷ be_bytes k (n % 256 ^ k)

-- The number that buf.readUIntBE reads from the bytes `bs`.
unfoldable pub be_value : List ℕ → ℕ
be_value [] = 0
be_value (b ∷ bs) = b * 256 ^ length bs + be_value bs

-- slice.writeUIntBE(n, offset, k): a number of more than `k` bytes is a RangeError.
unfoldable pub write_uint_be : ℕ → ℕ → ℕ → ℕ → BufferWriter → Result BufferWriter
unfolding be_bytes
write_uint_be slice n offset k w =
    if ltb n (256 ^ k) then ok (write_through slice offset (be_bytes k n) w) else err range_error

-- bytes.readUIntBE(offset, k): a RangeError where the bytes do not reach that far.
unfoldable pub read_uint_be : ℕ → ℕ → List ℕ → Result ℕ
unfolding be_value
read_uint_be offset k bytes =
    if ltb (length bytes) (offset + k)
    then err range_error
    else ok (be_value (take k (drop offset bytes)))

-- The two's complement number of `n < 256 ^ k`.
unfoldable pub as_signed : ℕ → ℕ → ℤ
as_signed k n = if ltb (n * 2) (256 ^ k) then pos n else negsuc (256 ^ k - n - 1)

-- writeIntBE and readIntBE
unfoldable pub write_int_be : ℕ → ℤ → ℕ → ℕ → BufferWriter → Result BufferWriter
unfolding be_bytes
write_int_be slice (pos n) offset k w =
    if ltb (n * 2) (256 ^ k)
    then ok (write_through slice offset (be_bytes k n) w)
    else err range_error
write_int_be slice (negsuc n) offset k w =
    if ltb (n * 2) (256 ^ k)
    then ok (write_through slice offset (be_bytes k (256 ^ k - n - 1)) w)
    else err range_error

unfoldable pub read_int_be : ℕ → ℕ → List ℕ → Result ℤ
unfolding be_value as_signed
read_int_be offset k bytes =
    if ltb (length bytes) (offset + k)
    then err range_error
    else ok (as_signed k (be_value (take k (drop offset bytes))))
