-- ===== src/Blockchain/BlockStore/Keys.antt =====
-- packages/blockchain/src/block-store.ts: the keys are different where they are to be.
use native.Mathlib.Nat.{div-one}
use uniqys_kit.Prelude.{
  drop, Bool-cases, inl, inr, ℕ, ◌^◌, ◌<◌, ◌≡◌, ◌≢◌, refl, sym, ap, ◌∙◌, false, [], ◌∷◌, ok, ◌>>=◌,
  arith, lt→ltb,
}
use uniqys_kit.Serialize.Buffer.{BufferWriter}
use uniqys_kit.Serialize.Integers.{be_bytes, write_uint_be}
use uniqys_kit.Serialize.Codec
use uniqys_kit.Serialize.Codec.{Writes, Writes-bind, Fits-injective, serialize-Writes}
use uniqys_kit.Serialize.Codec.Numbers.{
  Fits-uint8, Fits-uint64, bytes-uint8, uint64_roundtrip, uint64-Writes,
}
use uniqys_kit.Serialize.UInt8
use uniqys_kit.Serialize.UInt64
use uniqys_kit.Types.FixedBytes.{Bytes, equals, equals→eq}
use uniqys_kit.Blockchain.BlockStore.{
  write_prefix, header_key, body_key, header_prefix, body_prefix, height_key,
}

write_prefix-uint8 : (c : ℕ) (w : BufferWriter) → c < 2 ^ 8 → write_prefix c w ≡ UInt8.serialize c w
unfolding write_prefix UInt8.serialize write_uint_be be_bytes
write_prefix-uint8 c w h = rw (lt→ltb c (2 ^ 8) h, div-one c) refl

-- What a height is written as.
abbrev pub height_bytes : ℕ → Bytes
height_bytes n = 0 ∷ 0 ∷ be_bytes 6 n

height_bytes-injective :
    (m n : ℕ) → m < 2 ^ 48 → n < 2 ^ 48 → height_bytes m ≡ height_bytes n → m ≡ n
height_bytes-injective m n hm hn e =
    Fits-injective UInt64.serialize UInt64.deserialize m n (Fits-uint64 m hm) (Fits-uint64 n hn)
      ((uint64_roundtrip m hm).0 ∙ ap ok e ∙ sym (uint64_roundtrip n hn).0)

pub Writes-prefix : (c : ℕ) → c < 2 ^ 8 → Writes (write_prefix c) (c ∷ [])
Writes-prefix c h w b holds =
    let (w', e, holds') = (Fits-uint8 c h).writes w b holds in
    (w', write_prefix-uint8 c w h ∙ e, rw (bytes-uint8 c h) at holds')

key_bytes :
    (c n : ℕ)
    → c < 2 ^ 8
    → n < 2 ^ 48
    → Codec.serialize (λ n w. do w' ← write_prefix c w; UInt64.serialize n w') n
      ≡ ok (c ∷ height_bytes n)
key_bytes c n hc hn = serialize-Writes _ n (c ∷ height_bytes n) (
    Writes-bind (write_prefix c) (UInt64.serialize n) (c ∷ []) (height_bytes n) (Writes-prefix c hc)
      (uint64-Writes n hn))

pub header_key-bytes : (n : ℕ) → n < 2 ^ 48 → header_key n ≡ ok (header_prefix ∷ height_bytes n)
unfolding header_key
header_key-bytes n h = key_bytes header_prefix n (omega arith) h

pub body_key-bytes : (n : ℕ) → n < 2 ^ 48 → body_key n ≡ ok (body_prefix ∷ height_bytes n)
unfolding body_key
body_key-bytes n h = key_bytes body_prefix n (omega arith) h

-- Keys of the same kind are different for different heights.
pub equals-keys :
    (c m n : ℕ)
    → m < 2 ^ 48
    → n < 2 ^ 48
    → m ≢ n
    → equals (c ∷ height_bytes m) (c ∷ height_bytes n) ≡ false
equals-keys c m n hm hn differ =
    elim (Bool-cases (equals (c ∷ height_bytes m) (c ∷ height_bytes n))) [
      | inl e ↦ absurd (differ (height_bytes-injective m n hm hn (tail_eq (equals→eq _ _ e))))
      | inr e ↦ e
    ]
  where
    tail_eq : c ∷ height_bytes m ≡ c ∷ height_bytes n → height_bytes m ≡ height_bytes n
    tail_eq e = ap (drop 1) e

-- Headers and bodies have different keys, and neither has that of the height.
pub equals-other_keys :
    (m n : ℕ)
    → (equals (header_prefix ∷ height_bytes m) (body_prefix ∷ height_bytes n) ≡ false)
      × (equals (body_prefix ∷ height_bytes m) (header_prefix ∷ height_bytes n) ≡ false)
      × (equals (header_prefix ∷ height_bytes m) height_key ≡ false)
      × (equals (body_prefix ∷ height_bytes m) height_key ≡ false)
unfolding equals
equals-other_keys m n = (refl, refl, refl, refl)
