-- ===== src/Types/FixedBytes.antt =====
-- packages/types/src/bytes.ts: Byte, Bytes4, Bytes8, Bytes20, Bytes32 and Bytes64 differ only in
-- their length `n`; an object is its buffer.
use uniqys_kit.Prelude.{
  ℕ, Bool, true, false, List, [], ◌∷◌, ◌&&◌, ◌==◌, ◌≡◌, refl, arith, length, ==-refl, Result, ok,
  guard, type_error, ◌>>=◌, ◌>>◌,
}
use uniqys_kit.Serialize.Buffer.{append, consume}
use uniqys_kit.Serialize.Integers.{Serializer, Deserializer}
use uniqys_kit.Serialize.Codec.{Fits, Writes-append, consume_lem}

abbrev pub Bytes : Type 0
Bytes = List ℕ

-- Buffer.equals
unfoldable pub equals : Bytes → Bytes → Bool
equals [] [] = true
equals (a ∷ xs) (b ∷ ys) = a == b && equals xs ys
equals _ _ = false

unfoldable pub construct : ℕ → Bytes → Result Bytes
construct n buffer = do guard (length buffer == n) type_error; ok buffer

unfoldable pub serialize : Serializer Bytes
serialize buffer w = ok (append buffer w)

unfoldable pub deserialize : ℕ → Deserializer Bytes
unfolding construct
deserialize n r = let (bytes, r') = consume n r in do b ← construct n bytes; ok (b, r')

pub equals_refl : (xs : Bytes) → equals xs xs ≡ true
unfolding equals
equals_refl [] = refl
equals_refl (x ∷ xs) = ground (arith, equals_refl xs)

pub equals→eq : (xs ys : Bytes) → equals xs ys ≡ true → xs ≡ ys
unfolding equals
equals→eq [] [] h = refl
equals→eq [] (y ∷ ys) h = cc
equals→eq (x ∷ xs) [] h = cc
equals→eq (x ∷ xs) (y ∷ ys) h = ground (arith, equals→eq xs ys)

pub construct-eq-ok : (n : ℕ) (buffer : Bytes) → length buffer ≡ n → construct n buffer ≡ ok buffer
unfolding construct
construct-eq-ok n buffer size = rw (size, ==-refl n)

pub Fits-fixed :
    (n : ℕ) (buffer : Bytes) → length buffer ≡ n → Fits serialize (deserialize n) buffer
unfolding serialize deserialize
Fits-fixed n buffer size = record {
  bytes = buffer;
  writes = Writes-append buffer;
  reads = λ r rest e.
      let (taken, left) = rw size at (consume_lem r buffer rest e) in
      ((consume n r).1, rw (taken, size, ==-refl n) refl, left);
}
