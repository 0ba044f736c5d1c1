-- ===== src/Serialize/Codec/Collections.antt =====
-- packages/serialize/src/index.ts: SizedBuffer and List give their values back.
use uniqys_kit.Prelude.{ℕ, ◌^◌, ◌<◌, refl, List, [], ◌∷◌, ◌++◌, ok, ◌>>=◌, length, All, append-nil}
use uniqys_kit.Serialize.Buffer.{append, consume}
use uniqys_kit.Serialize.Integers.{Serializer, Deserializer}
use uniqys_kit.Serialize.Codec.{
  Writes, Reads, Fits, Writes-append, Writes-nothing, Writes-bind, Reads-bind, Reads-ok,
  consume_lem,
}
use uniqys_kit.Serialize.Codec.Numbers.{Fits-uint32}
use uniqys_kit.Serialize.UInt32
use uniqys_kit.Serialize.SizedBuffer
use uniqys_kit.Serialize.Lists

-- `consume` of the right size reads bytes verbatim.
pub Reads-consume : (bytes : List ℕ) → Reads (λ r. ok (consume (length bytes) r)) bytes bytes
Reads-consume bytes r rest e =
    let (taken, left) = consume_lem r bytes rest e in
    ((consume (length bytes) r).1, rw taken refl, left)

pub Fits-sized_buffer :
    (bytes : List ℕ)
    → length bytes < 2 ^ 32
    → Fits SizedBuffer.serialize SizedBuffer.deserialize bytes
unfolding SizedBuffer.serialize SizedBuffer.deserialize
Fits-sized_buffer bytes h =
    let size = Fits-uint32 (length bytes) h in
    record {
      bytes = size.bytes ++ bytes;
      writes =
          Writes-bind (UInt32.serialize (length bytes)) (λ w. ok (append bytes w)) size.bytes bytes
            size.writes (Writes-append bytes);
      reads =
          Reads-bind UInt32.deserialize (λ n r. ok (consume n r)) (length bytes) bytes size.bytes
            bytes size.reads (Reads-consume bytes);
    }

module _ {ℓ} {A : Type ℓ} (s : Serializer A) (d : Deserializer A) where
  Fits-items :
      (items : List A)
      → All (Fits s d) items
      → (bytes : List ℕ) × Writes (Lists.write_items s items) bytes
        × Reads (Lists.read_items d (length items)) items bytes
  unfolding Lists.write_items Lists.read_items
  Fits-items [] h = ([], Writes-nothing, Reads-ok [])
  Fits-items (item ∷ items) (fits, h) =
      let (rest, writes, reads) = Fits-items items h in
      (
        fits.bytes ++ rest,
        Writes-bind (s item) (Lists.write_items s items) fits.bytes rest fits.writes writes,
        rw append-nil at (
            Reads-bind d
              (λ x r. Lists.read_items d (length items) r >>= λ (xs, r'). ok (x ∷ xs, r')) item
              (item ∷ items) fits.bytes (rest ++ []) fits.reads
              (Reads-bind (Lists.read_items d (length items)) (λ xs r. ok (item ∷ xs, r)) items
                (item ∷ items) rest [] reads (Reads-ok (item ∷ items)))),
      )

  pub Fits-list :
      (items : List A)
      → length items < 2 ^ 32
      → All (Fits s d) items
      → Fits (Lists.serialize s) (Lists.deserialize d) items
  unfolding Lists.serialize Lists.deserialize
  Fits-list items h each =
      let size = Fits-uint32 (length items) h in
      let (bytes, writes, reads) = Fits-items items each in
      record {
        bytes = size.bytes ++ bytes;
        writes =
            Writes-bind (UInt32.serialize (length items)) (Lists.write_items s items) size.bytes
              bytes size.writes writes;
        reads =
            Reads-bind UInt32.deserialize (Lists.read_items d) (length items) items size.bytes bytes
              size.reads reads;
      }
