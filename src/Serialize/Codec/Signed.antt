-- ===== src/Serialize/Codec/Signed.antt =====
-- packages/serialize/src/index.ts: Int64 gives its numbers back, two's complement in 48 bits.
use uniqys_kit.Prelude.{
  ℕ, ◌-◌, ◌^◌, ◌<◌, ◌≡◌, refl, sym, false, List, [], ◌∷◌, append-nil, arith, ok, ◌>>=◌, length,
  replicate,
}
use uniqys_kit.Prelude.Int.{ℤ, pos, negsuc}
use uniqys_kit.Serialize.Buffer.{BufferWriter, alloc, write_through, consume}
use uniqys_kit.Serialize.Buffer.Bytes.{ensure-Holds, write_through-Holds}
use uniqys_kit.Serialize.Integers.{be_bytes, as_signed, read_int_be, write_int_be}
use uniqys_kit.Serialize.Integers.Digits.{length-be_bytes, digits_at}
use uniqys_kit.Serialize.Codec
use uniqys_kit.Serialize.Codec.{Writes, Reads, Fits, consume_lem}
use uniqys_kit.Serialize.Int64
use uniqys_kit.Serialize.Int64.{exceeds_range, fill_byte}

-- The unsigned 48 bits of an integer in range.
unfoldable pub low_bits : ℤ → ℕ
low_bits (pos n) = n
low_bits (negsuc n) = 256 ^ 6 - n - 1

module _ (n : ℤ) (fits : exceeds_range n ≡ false) where
  low_bits-lt : low_bits n < 256 ^ 6
  unfolding low_bits exceeds_range
  low_bits-lt = ground arith

  as_signed-low_bits : as_signed 6 (low_bits n) ≡ n
  unfolding low_bits exceeds_range as_signed
  as_signed-low_bits = ground arith

-- In range `writeIntBE` writes the low bits.
write_int_be-low_bits :
    (slice : ℕ) (n : ℤ) (w : BufferWriter)
    → exceeds_range n ≡ false
    → write_int_be slice n 2 6 w ≡ ok (write_through slice 2 (be_bytes 6 (low_bits n)) w)
unfolding write_int_be low_bits exceeds_range
write_int_be-low_bits slice (pos n) w h = ground arith
write_int_be-low_bits slice (negsuc n) w h = ground arith

abbrev pub int64_bytes : ℤ → List ℕ
int64_bytes n = fill_byte n ∷ fill_byte n ∷ be_bytes 6 (low_bits n)

int64-Writes : (n : ℤ) → exceeds_range n ≡ false → Writes (Int64.serialize n) (int64_bytes n)
unfolding Int64.serialize
int64-Writes n fits w c holds =
    let fill = fill_byte n in
    let digits = be_bytes 6 (low_bits n) in
    let (slice, holds') = ensure-Holds 8 holds in
    let filled = write_through-Holds c [] (alloc 8) (replicate 8 fill) [] refl holds' in
    let target =
      write_through-Holds c (fill ∷ fill ∷ []) (replicate 6 fill) digits []
        (sym (length-be_bytes 6 (low_bits n))) filled in
    (_, rw (fits, slice, write_int_be-low_bits (length c) n _ fits) refl, rw append-nil at target)

int64-Reads : (n : ℤ) → exceeds_range n ≡ false → Reads Int64.deserialize n (int64_bytes n)
unfolding Int64.deserialize read_int_be
int64-Reads n fits r rest e =
    let fill = fill_byte n in
    let (size, value) = digits_at (fill ∷ fill ∷ []) 6 (low_bits n) (low_bits-lt n fits) in
    let (taken, left) = rw size at (consume_lem r (int64_bytes n) rest e) in
    ((consume 8 r).1, rw (taken, size, value, as_signed-low_bits n fits) refl, left)

pub Fits-int64 : (n : ℤ) → exceeds_range n ≡ false → Fits Int64.serialize Int64.deserialize n
Fits-int64 n fits = record {
  bytes = int64_bytes n;
  writes = int64-Writes n fits;
  reads = int64-Reads n fits;
}

-- An integer in the 48-bit range is written as its sign byte twice and its two's complement, and is
-- read back.
pub int64_roundtrip :
    (n : ℤ)
    → exceeds_range n ≡ false
    → (Codec.serialize Int64.serialize n ≡ ok (fill_byte n ∷ fill_byte n ∷ be_bytes 6 (low_bits n)))
      × ((Codec.serialize Int64.serialize n >>= Codec.deserialize Int64.deserialize) ≡ ok n)
unfolding Fits-int64
int64_roundtrip n fits = (
  Codec.serialize-bytes Int64.serialize Int64.deserialize n (Fits-int64 n fits),
  Codec.deserialize-serialize Int64.serialize Int64.deserialize n (Fits-int64 n fits),
)
