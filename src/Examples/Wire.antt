-- ===== src/Examples/Wire.antt =====
-- The wire format and the signatures at concrete values.
use uniqys_kit.Prelude.{◌^◌, ◌≡◌, refl, false, [], ◌∷◌, arith, ok, err, ◌>>=◌, out_of_48bit_range}
use uniqys_kit.Prelude.Int.{negsuc}
use uniqys_kit.Serialize.Buffer.{resize, grow, copy, new_writer, contents, ensure, write_through}
use uniqys_kit.Serialize.Integers.{be_bytes, write_uint_be, write_int_be}
use uniqys_kit.Serialize.Codec
use uniqys_kit.Serialize.UInt64
use uniqys_kit.Serialize.Int64
use uniqys_kit.Serialize.Int64.{exceeds_range, fill_byte}
use uniqys_kit.Signature.Keys.{construct}
use uniqys_kit.Signature.Recovery.{IsSignature}
use uniqys_kit.Blockchain.Votes.{type_precommit}
use uniqys_kit.Blockchain.Messages.{prevote, serialize, deserialize}
use uniqys_kit.Blockchain.Messages.RoundTrip.{deserialize-serialize, vote_payload-injective}
use uniqys_kit.Protocol.Messages.{get_headers}
use uniqys_kit.Protocol.Messages
use uniqys_kit.Protocol.Wire.{message_roundtrip}
use uniqys_kit.Examples.Toy.{sign_of_toy, hash_of, vote_for_7, message_for_7}

uint64_bytes :
    Codec.serialize UInt64.serialize 0x0102_0304_0506 ≡ ok (0 ∷ 0 ∷ 1 ∷ 2 ∷ 3 ∷ 4 ∷ 5 ∷ 6 ∷ [])
unfolding Codec.serialize UInt64.serialize write_uint_be be_bytes ensure write_through resize grow
    copy new_writer contents
uint64_bytes = refl

uint64_too_large : Codec.serialize UInt64.serialize (2 ^ 48) ≡ err out_of_48bit_range
unfolding Codec.serialize UInt64.serialize new_writer
uint64_too_large = refl

int64_minus_two :
    Codec.serialize Int64.serialize (negsuc 1)
    ≡ ok (0xff ∷ 0xff ∷ 0xff ∷ 0xff ∷ 0xff ∷ 0xff ∷ 0xff ∷ 0xfe ∷ [])
unfolding Codec.serialize Int64.serialize exceeds_range fill_byte write_int_be be_bytes ensure
    write_through resize grow copy new_writer contents
int64_minus_two = refl

IsSignature-toy : IsSignature sign_of_toy
unfolding construct
IsSignature-toy = refl

int64_in_range : exceeds_range (negsuc 1) ≡ false
unfolding exceeds_range
int64_in_range = refl

deserialize-serialize_example :
    (Codec.serialize serialize (prevote message_for_7) >>= Codec.deserialize deserialize)
    ≡ ok (prevote message_for_7)
deserialize-serialize_example =
    deserialize-serialize (prevote message_for_7) (omega arith, IsSignature-toy)

vote_payload-injective_example :
    (type_precommit ≡ type_precommit) × (vote_for_7 ≡ vote_for_7) × (hash_of 9 ≡ hash_of 9)
vote_payload-injective_example =
    vote_payload-injective type_precommit type_precommit vote_for_7 vote_for_7 (hash_of 9)
      (hash_of 9) (omega arith) (omega arith) (omega arith) (omega arith) refl refl refl

message_roundtrip_example :
    (Codec.serialize Messages.serialize (get_headers (record { from = 7; count = 2 }))
      >>= Codec.deserialize Messages.deserialize)
    ≡ ok (get_headers (record { from = 7; count = 2 }))
message_roundtrip_example =
    message_roundtrip (get_headers (record { from = 7; count = 2 }))
      (record { from = omega arith; count = omega arith })
