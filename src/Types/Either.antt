-- ===== src/Types/Either.antt =====
-- packages/types/src/either.ts: an Either is `left` or `right`; `match` is elimination.
use uniqys_kit.Prelude.{
  ℕ, Bool, true, false, ◌==◌, if◌then◌else◌, arith, ok, err, unknown_label, ◌>>=◌,
}
use uniqys_kit.Serialize.Integers.{Serializer, Deserializer}
use uniqys_kit.Serialize.Codec.{Fits, Part-then, Part-last}
use uniqys_kit.Serialize.Codec.Numbers.{Fits-uint8}
use uniqys_kit.Serialize.UInt8

pub data Either {ℓ κ} (L : Type ℓ) (R : Type κ) : Type (ℓ ⊔ κ) where
  left : L → Either L R
  right : R → Either L R

module _ {ℓ} {L R : Type ℓ} where
  unfoldable pub is_left : Either L R → Bool
  is_left (left v) = true
  is_left (right v) = false

  unfoldable pub serialize : Serializer L → Serializer R → Serializer (Either L R)
  serialize l r (left v) w = do w' ← UInt8.serialize 0 w; l v w'
  serialize l r (right v) w = do w' ← UInt8.serialize 1 w; r v w'

  -- switch (label)
  unfoldable pub read_labelled : Deserializer L → Deserializer R → ℕ → Deserializer (Either L R)
  read_labelled l r label reader =
      if label == 0
      then (do (v, reader') ← l reader; ok (left v, reader'))
      else if label == 1
      then (do (v, reader') ← r reader; ok (right v, reader'))
      else err unknown_label

  unfoldable pub deserialize : Deserializer L → Deserializer R → Deserializer (Either L R)
  unfolding read_labelled
  deserialize l r reader = do
    (label, reader') ← UInt8.deserialize reader
    read_labelled l r label reader'

  module _ (sl : Serializer L) (sr : Serializer R) (dl : Deserializer L) (dr : Deserializer R) where
    pub Fits-left : (v : L) → Fits sl dl v → Fits (serialize sl sr) (deserialize dl dr) (left v)
    unfolding serialize deserialize
    Fits-left v fits =
        Part-then UInt8.serialize UInt8.deserialize _ (Fits-uint8 0 (omega arith))
          (Part-last sl dl left fits)

    pub Fits-right : (v : R) → Fits sr dr v → Fits (serialize sl sr) (deserialize dl dr) (right v)
    unfolding serialize deserialize
    Fits-right v fits =
        Part-then UInt8.serialize UInt8.deserialize _ (Fits-uint8 1 (omega arith))
          (Part-last sr dr right fits)
