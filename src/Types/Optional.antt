-- ===== src/Types/Optional.antt =====
-- packages/types/src/optional.ts: an Optional is an `Option`; `match` is elimination.
use uniqys_kit.Prelude.{
  ℕ, Bool, true, false, Option, none, some, ◌==◌, if◌then◌else◌, arith, refl, ok, err,
  unknown_label, ◌>>=◌,
}
use uniqys_kit.Serialize.Integers.{Serializer, Deserializer}
use uniqys_kit.Serialize.Codec.{Fits, Part-then, Part-last, Part-end}
use uniqys_kit.Serialize.Codec.Numbers.{Fits-uint8}
use uniqys_kit.Serialize.UInt8

module _ {ℓ} {A : Type ℓ} where
  unfoldable pub is_some : Option A → Bool
  is_some (some v) = true
  is_some none = false

  unfoldable pub is_none : Option A → Bool
  is_none (some v) = false
  is_none none = true

  unfoldable pub serialize : Serializer A → Serializer (Option A)
  serialize serializer (some v) w = do w' ← UInt8.serialize 1 w; serializer v w'
  serialize serializer none w = UInt8.serialize 0 w

  -- switch (label)
  unfoldable pub read_labelled : Deserializer A → ℕ → Deserializer (Option A)
  read_labelled deserializer label r =
      if label == 0
      then ok (none, r)
      else if label == 1
      then (do (v, r') ← deserializer r; ok (some v, r'))
      else err unknown_label

  unfoldable pub deserialize : Deserializer A → Deserializer (Option A)
  unfolding read_labelled
  deserialize deserializer r = do
    (label, r') ← UInt8.deserialize r
    read_labelled deserializer label r'

  module _ (s : Serializer A) (d : Deserializer A) where
    pub Fits-none : Fits (serialize s) (deserialize d) none
    unfolding serialize deserialize
    Fits-none = Part-end UInt8.serialize UInt8.deserialize _ (Fits-uint8 0 (omega arith)) refl

    pub Fits-some : (v : A) → Fits s d v → Fits (serialize s) (deserialize d) (some v)
    unfolding serialize deserialize
    Fits-some v fits =
        Part-then UInt8.serialize UInt8.deserialize _ (Fits-uint8 1 (omega arith))
          (Part-last s d some fits)
