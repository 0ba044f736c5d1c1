-- ===== src/Easy/Item.antt =====
-- packages/easy-framework/src/memcached-implementation.ts: Item
use uniqys_kit.Prelude.{
  ℕ, ◌^◌, ◌<◌, ◌≡◌, refl, subst, ok-injective, [], ◌++◌, Bool, true, false, ok, ◌>>=◌,
  if◌then◌else◌, Result-cases, inl, inr,
}
use uniqys_kit.Serialize.Buffer.{append, remaining, new_reader, new_writer}
use uniqys_kit.Serialize.Buffer.Bytes.{Holds-new, contents-Holds}
use uniqys_kit.Serialize.Integers.{Serializer, Deserializer}
use uniqys_kit.Serialize.Codec
use uniqys_kit.Serialize.Codec.{Writes, Writes-append, Writes-bind, Fits}
use uniqys_kit.Serialize.Codec.Numbers.{Fits-uint32, Fits-uint64}
use uniqys_kit.Serialize.UInt32
use uniqys_kit.Serialize.UInt64
use uniqys_kit.Types.FixedBytes.{Bytes}

pub record Item : Type 0 where
  pub flags : ℕ
  pub cas_uniq : ℕ
  pub data_bytes : Bytes

-- `reader.buffer`: the bytes that are left, which are not consumed
unfoldable pub item_deserialize : Deserializer Item
item_deserialize r = do
  (cas_uniq, r₁) ← UInt64.deserialize r
  (flags, r₂) ← UInt32.deserialize r₁
  ok (record { flags = flags; cas_uniq = cas_uniq; data_bytes = remaining r₂ }, r₂)

unfoldable pub no_cas_deserialize : Deserializer Item
no_cas_deserialize r = do
  (flags, r₁) ← UInt32.deserialize r
  ok (record { flags = flags; cas_uniq = 0; data_bytes = remaining r₁ }, r₁)

unfoldable pub item_serialize : Serializer Item
item_serialize item w = do
  w₁ ← UInt64.serialize item.cas_uniq w
  w₂ ← UInt32.serialize item.flags w₁
  ok (append item.data_bytes w₂)

unfoldable pub no_cas_serialize : Serializer Item
no_cas_serialize item w = do w₁ ← UInt32.serialize item.flags w; ok (append item.data_bytes w₁)

-- The two fields that the constructor of EasyMemcached chooses.
unfoldable pub item_serializer : Bool → Serializer Item
unfolding item_serialize no_cas_serialize
item_serializer use_cas = if use_cas then item_serialize else no_cas_serialize

unfoldable pub item_deserializer : Bool → Deserializer Item
unfolding item_deserialize no_cas_deserialize
item_deserializer use_cas = if use_cas then item_deserialize else no_cas_deserialize

pub record ItemInRange (item : Item) : Type 0 where
  pub flags : item.flags < 2 ^ 32
  pub cas_uniq : item.cas_uniq < 2 ^ 48

-- What is read of an item after it was written: without cas, its number is 0.
abbrev pub stored_item : Bool → Item → Item
stored_item use_cas item = record item { cas_uniq = if use_cas then item.cas_uniq else 0 }

pub item_bytes :
    (use_cas : Bool) (item : Item)
    → ItemInRange item
    → (bytes : Bytes) × (Codec.serialize (item_serializer use_cas) item ≡ ok bytes)
      × (Codec.deserialize (item_deserializer use_cas) bytes ≡ ok (stored_item use_cas item))
unfolding item_serializer item_deserializer Codec.serialize Codec.deserialize item_serialize
    item_deserialize no_cas_serialize no_cas_deserialize new_reader remaining
item_bytes true item h =
    let cas = Fits-uint64 item.cas_uniq h.cas_uniq in
    let flags = Fits-uint32 item.flags h.flags in
    let (w, e, holds) =
      Writes-bind (UInt64.serialize item.cas_uniq) _ cas.bytes (flags.bytes ++ item.data_bytes)
        cas.writes
        (Writes-bind (UInt32.serialize item.flags) (λ w. ok (append item.data_bytes w)) flags.bytes
          item.data_bytes flags.writes (Writes-append item.data_bytes))
        new_writer [] Holds-new in
    let bytes = cas.bytes ++ (flags.bytes ++ item.data_bytes) in
    let (r₁, e₁, left₁) = cas.reads (new_reader bytes) (flags.bytes ++ item.data_bytes) refl in
    let (r₂, e₂, left₂) = flags.reads r₁ item.data_bytes left₁ in
    (bytes, rw (e, contents-Holds holds) refl, rw (e₁, e₂, left₂) refl)
item_bytes false item h =
    let flags = Fits-uint32 item.flags h.flags in
    let (w, e, holds) =
      Writes-bind (UInt32.serialize item.flags) (λ w. ok (append item.data_bytes w)) flags.bytes
        item.data_bytes flags.writes (Writes-append item.data_bytes) new_writer [] Holds-new in
    let bytes = flags.bytes ++ item.data_bytes in
    let (r₂, e₂, left₂) = flags.reads (new_reader bytes) item.data_bytes refl in
    (bytes, rw (e, contents-Holds holds) refl, rw (e₂, left₂) refl)

-- An item that was read is one that can be stored.
pub stored-deserialize :
    (use_cas : Bool) (bytes : Bytes) (item : Item)
    → Codec.deserialize (item_deserializer use_cas) bytes ≡ ok item
    → stored_item use_cas item ≡ item
unfolding item_deserializer no_cas_deserialize Codec.deserialize
stored-deserialize true bytes item h = refl
stored-deserialize false bytes item h =
    elim (Result-cases (UInt32.deserialize (new_reader bytes))) [
      | inl ((flags, r), e) ↦ subst (λ i. stored_item false i ≡ i) (ok-injective (rw e at h)) refl
      | inr (error, e) ↦ let refused = rw e at h in cc
    ]
