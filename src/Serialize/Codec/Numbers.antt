-- ===== src/Serialize/Codec/Numbers.antt =====
-- packages/serialize/src/index.ts: UInt8, UInt32 and UInt64 give their numbers back.
use native.Mathlib.Nat.{div-one}
use uniqys_kit.Prelude.{
  ℕ, [], ◌∷◌, ◌-◌, ◌^◌, ◌≤◌, ◌<◌, ◌≡◌, ◌++◌, arith, le→ltb, ok, err, ◌>>=◌, out_of_48bit_range,
}
use uniqys_kit.Serialize.Buffer.{BufferWriter, alloc}
use uniqys_kit.Serialize.Integers.{be_bytes}
use uniqys_kit.Serialize.Integers.Digits.{uint-Writes, uint-Reads}
use uniqys_kit.Serialize.Codec
use uniqys_kit.Serialize.Codec.{Fits, Writes}
use uniqys_kit.Serialize.UInt8
use uniqys_kit.Serialize.UInt32
use uniqys_kit.Serialize.UInt64

pub Fits-uint8 : (n : ℕ) → n < 2 ^ 8 → Fits UInt8.serialize UInt8.deserialize n
unfolding UInt8.serialize UInt8.deserialize
Fits-uint8 n h = record {
  bytes = be_bytes 1 n;
  writes = uint-Writes 0 1 n h;
  reads = uint-Reads 0 1 n h;
}

-- One byte is written as it is.
pub bytes-uint8 : (n : ℕ) (h : n < 2 ^ 8) → (Fits-uint8 n h).bytes ≡ n ∷ []
unfolding Fits-uint8 be_bytes
bytes-uint8 n h = rw (div-one n)

pub Fits-uint32 : (n : ℕ) → n < 2 ^ 32 → Fits UInt32.serialize UInt32.deserialize n
unfolding UInt32.serialize UInt32.deserialize
Fits-uint32 n h = record {
  bytes = be_bytes 4 n;
  writes = uint-Writes 0 4 n h;
  reads = uint-Reads 0 4 n h;
}

-- The two bytes in front are never written: they are the zeros of the fresh store.
pub Fits-uint64 : (n : ℕ) → n < 2 ^ 48 → Fits UInt64.serialize UInt64.deserialize n
unfolding UInt64.serialize UInt64.deserialize
Fits-uint64 n h = record {
  bytes = alloc 2 ++ be_bytes 6 n;
  writes = rw (le→ltb (2 ^ 48 - 1) n (omega arith)) (uint-Writes 2 6 n h);
  reads = uint-Reads 2 6 n h;
}

pub uint64-Writes : (n : ℕ) → n < 2 ^ 48 → Writes (UInt64.serialize n) (0 ∷ 0 ∷ be_bytes 6 n)
unfolding Fits-uint64
uint64-Writes n h = (Fits-uint64 n h).writes

pub UInt64-serialize_out_of_range :
    (n : ℕ) (w : BufferWriter) → 2 ^ 48 ≤ n → UInt64.serialize n w ≡ err out_of_48bit_range
unfolding UInt64.serialize
UInt64-serialize_out_of_range n w h = ground arith

-- A number below 2^48 is written as two zero bytes and its six bytes, and is read back.
pub uint64_roundtrip :
    (n : ℕ)
    → n < 2 ^ 48
    → (Codec.serialize UInt64.serialize n ≡ ok (0 ∷ 0 ∷ be_bytes 6 n))
      × ((Codec.serialize UInt64.serialize n >>= Codec.deserialize UInt64.deserialize) ≡ ok n)
unfolding Fits-uint64
uint64_roundtrip n h = (
  Codec.serialize-bytes UInt64.serialize UInt64.deserialize n (Fits-uint64 n h),
  Codec.deserialize-serialize UInt64.serialize UInt64.deserialize n (Fits-uint64 n h),
)
