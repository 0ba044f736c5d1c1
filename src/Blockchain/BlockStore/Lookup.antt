-- ===== src/Blockchain/BlockStore/Lookup.antt =====
-- packages/blockchain/src/block-store.ts: what is stored is what is found.
use uniqys_kit.Prelude.{ℕ, ◌^◌, ◌<◌, ◌≡◌, ◌≢◌, refl, sym, ap, ◌∙◌, false, ◌∷◌, ok, ◌>>=◌}
use uniqys_kit.Serialize.Integers.{Serializer, Deserializer}
use uniqys_kit.Serialize.Codec
use uniqys_kit.Serialize.Codec.{Fits}
use uniqys_kit.Types.FixedBytes.{Bytes, equals, equals_refl}
use uniqys_kit.Store.Interface.{Store, StoreLaws}
use uniqys_kit.Blockchain.Blocks.{
  BlockHeader, BlockBody, header_serialize, header_deserialize, body_serialize, body_deserialize,
  HeaderInRange, BodyInRange, Fits-header, Fits-body,
}
use uniqys_kit.Blockchain.BlockStore.{
  BlockStore, header_prefix, body_prefix, height_key, entry, put, height_from, get_height,
  get_header, get_body, set_header, set_body,
}
use uniqys_kit.Blockchain.BlockStore.Keys.{
  height_bytes, header_key-bytes, body_key-bytes, equals-keys, equals-other_keys,
}

module _ {State : Type 0} (store : Store State Bytes) (laws : StoreLaws State Bytes store) where
  -- A value that fits is stored, found under its key, and changes no other entry.
  put-entry :
      {A : Type 0} (s : Serializer A) (d : Deserializer A) (a : A) (key : Bytes)
      (b : BlockStore State)
      → Fits s d a
      → (b' : BlockStore State) × (put store s a key b ≡ ok b')
        × (entry store d key b' ≡ ok a)
        × (b'.cached ≡ b.cached)
        × ((j : Bytes) → equals key j ≡ false → store.get j b'.store ≡ store.get j b.store)
  unfolding put entry
  put-entry s d a key b fits =
      let written = Codec.serialize-bytes s d a fits in
      (
        record b { store = store.set key fits.bytes b.store },
        rw written refl,
        rw (laws.get-set key key fits.bytes b.store, equals_refl key)
            ((ap (λ t. t >>= Codec.deserialize d) (sym written))
              ∙ Codec.deserialize-serialize s d a fits),
        refl,
        λ j e. rw (laws.get-set key j fits.bytes b.store, e) refl,
      )

  get_height-same :
      (b b' : BlockStore State)
      → b'.cached ≡ b.cached
      → store.get height_key b'.store ≡ store.get height_key b.store
      → get_height store b' ≡ get_height store b
  unfolding get_height
  get_height-same b b' cache same =
      ap (λ o. height_from store o (store.get height_key b'.store)) cache
      ∙ ap (λ v. height_from store b.cached v) same

  -- A header that fits the format is stored under its height, and found there; the header of
  -- another height, the bodies and the height of the chain are as they were. Heights are below
  -- 2^48, and the store keeps the laws.
  pub get_header-set_header :
      (n m k : ℕ) (header : BlockHeader) (b : BlockStore State)
      → n < 2 ^ 48
      → m < 2 ^ 48
      → k < 2 ^ 48
      → n ≢ m
      → HeaderInRange header
      → (b' : BlockStore State) × (set_header store n header b ≡ ok b')
        × (get_header store n b' ≡ ok header)
        × (get_header store m b' ≡ get_header store m b)
        × (get_body store k b' ≡ get_body store k b)
        × (get_height store b' ≡ get_height store b)
  unfolding set_header get_header get_body get_height entry
  get_header-set_header n m k header b h hm hk differ fits =
      let (b', e, found, cache, others) =
        put-entry header_serialize header_deserialize header (header_prefix ∷ height_bytes n) b
          (Fits-header header fits) in
      (
        b',
        rw (header_key-bytes n h) e,
        rw (header_key-bytes n h) found,
        rw
            (
              header_key-bytes m hm,
              others (header_prefix ∷ height_bytes m) (equals-keys header_prefix n m h hm differ),
            )
            refl,
        rw (body_key-bytes k hk, others (body_prefix ∷ height_bytes k) (equals-other_keys n k).0)
            refl,
        get_height-same b b' cache (others height_key (equals-other_keys n n).2),
      )

  -- A body that fits the format is stored under its height, and found there; the body of another
  -- height, the headers and the height are as they were.
  pub get_body-set_body :
      (n m k : ℕ) (body : BlockBody) (b : BlockStore State)
      → n < 2 ^ 48
      → m < 2 ^ 48
      → k < 2 ^ 48
      → n ≢ m
      → BodyInRange body
      → (b' : BlockStore State) × (set_body store n body b ≡ ok b')
        × (get_body store n b' ≡ ok body)
        × (get_body store m b' ≡ get_body store m b)
        × (get_header store k b' ≡ get_header store k b)
        × (get_height store b' ≡ get_height store b)
  unfolding set_body get_header get_body get_height entry
  get_body-set_body n m k body b h hm hk differ fits =
      let (b', e, found, cache, others) =
        put-entry body_serialize body_deserialize body (body_prefix ∷ height_bytes n) b
          (Fits-body body fits) in
      (
        b',
        rw (body_key-bytes n h) e,
        rw (body_key-bytes n h) found,
        rw
            (
              body_key-bytes m hm,
              others (body_prefix ∷ height_bytes m) (equals-keys body_prefix n m h hm differ),
            )
            refl,
        rw
            (
              header_key-bytes k hk,
              others (header_prefix ∷ height_bytes k) (equals-other_keys n k).1,
            )
            refl,
        get_height-same b b' cache (others height_key (equals-other_keys n n).3),
      )
