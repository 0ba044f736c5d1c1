-- ===== src/Easy/State/Entries.antt =====
-- packages/easy-framework/src/state.ts: what each write of newHeight leaves under the entries of the meta state.
use uniqys_kit.Prelude.{
  ℕ, ◌+◌, ◌^◌, ◌<◌, ◌≡◌, refl, sym, ap, ◌∙◌, List, [], ◌∷◌, Bool, true, false, All, length,
  if◌then◌else◌, Result, ok, ◌>>=◌,
}
use uniqys_kit.Serialize.Integers.{Serializer, Deserializer}
use uniqys_kit.Serialize.Codec
use uniqys_kit.Serialize.Codec.{Fits}
use uniqys_kit.Serialize.Codec.Numbers.{Fits-uint64}
use uniqys_kit.Serialize.Codec.Collections.{Fits-list}
use uniqys_kit.Serialize.UInt64
use uniqys_kit.Types.FixedBytes
use uniqys_kit.Types.FixedBytes.{Bytes, equals, equals_refl}
use uniqys_kit.Signature.{Hash}
use uniqys_kit.Signature.Keys.{hash_zero, hash_deserialize}
use uniqys_kit.Signature.Recovery.{IsHash, Fits-hash}
use uniqys_kit.Store.Interface.{Store, StoreLaws}
use uniqys_kit.Easy.Meta.{
  entry, put, value_or, get_height, increment_height, get_app_root, set_app_root, height_key,
  app_root_key, valid_hashes_key, block_timestamp_key, event_timestamp_key, event_root_key,
  hashes_serialize, hashes_deserialize, get_valid_transaction_hashes, set_valid_transaction_hashes,
  set_latest_block_timestamp, set_latest_event_timestamp, get_latest_block_timestamp,
  get_latest_event_timestamp, set_event_transaction_root,
}
use uniqys_kit.Easy.State.{note_event}

module _ {State : Type 0} (meta : Store State Bytes) (laws : StoreLaws State Bytes meta) where
  -- What changes at one entry alone.
  pub record Wrote (key : Bytes) (s s' : State) : Type 0 where
    pub others : (j : Bytes) → equals key j ≡ false → meta.get j s' ≡ meta.get j s

  put-entry :
      {A : Type 0} (se : Serializer A) (d : Deserializer A) (a : A) (key : Bytes) (s : State)
      → Fits se d a
      → (s' : State) × (put meta se a key s ≡ ok s')
        × ((other : Result A) → entry meta d other key s' ≡ ok a)
        × Wrote key s s'
  unfolding put entry value_or
  put-entry se d a key s fits =
      let written = Codec.serialize-bytes se d a fits in
      (
        meta.set key fits.bytes s,
        rw written refl,
        λ other.
            rw (laws.get-set key key fits.bytes s, equals_refl key)
              (ap (λ t. t >>= Codec.deserialize d) (sym written)
                ∙ Codec.deserialize-serialize se d a fits),
        record { others = λ j e. rw (laws.get-set key j fits.bytes s, e) refl },
      )

  pub past :
      {A : Type 0} {key : Bytes} {s s' : State}
      → Wrote key s s'
      → (d : Deserializer A) (other : Result A) (j : Bytes) → equals key j ≡ false
      → entry meta d other j s' ≡ entry meta d other j s
  unfolding entry
  past w d other j e = ap (value_or meta d other) (w.others j e)

  note_event-noted :
      (exists : Bool) (time : ℕ) (s : State)
      → get_latest_block_timestamp meta s ≡ ok time
      → time < 2 ^ 48
      → (s' : State) × (note_event meta exists s ≡ ok s')
        × (get_latest_event_timestamp meta s'
            ≡ (if exists then ok time else get_latest_event_timestamp meta s))
        × Wrote event_timestamp_key s s'
  unfolding note_event set_latest_event_timestamp get_latest_event_timestamp
  note_event-noted false time s h small = (s, refl, refl, record { others = λ j e. refl })
  note_event-noted true time s h small =
      let (s', e, found, w) =
        put-entry UInt64.serialize UInt64.deserialize time event_timestamp_key s
          (Fits-uint64 time small) in
      (s', rw h e, found (ok 0), w)

  all_fit :
      (hashes : List Hash)
      → All IsHash hashes
      → All (Fits FixedBytes.serialize hash_deserialize) hashes
  all_fit [] h = tt
  all_fit (x ∷ hashes) (h, more) = (Fits-hash x h, all_fit hashes more)

  -- The last three writes of newHeight, and what they leave.
  pub record Tail (event_root : Hash) (time before : ℕ) (event_exists : Bool) (s : State)
      : Type 1 where
    pub after : State
    pub runs :
        (do
          s₄ ← note_event meta event_exists s
          s₅ ← set_latest_block_timestamp meta time s₄
          set_event_transaction_root meta event_root s₅)
        ≡ ok after
    pub block_time : get_latest_block_timestamp meta after ≡ ok time
    pub event_time :
        get_latest_event_timestamp meta after
        ≡ (if event_exists then ok before else get_latest_event_timestamp meta s)
    pub root_found :
        (other : Result Hash)
        → entry meta hash_deserialize other event_root_key after ≡ ok event_root
    pub others :
        {A : Type 0} (d : Deserializer A) (other : Result A) (j : Bytes)
        → equals event_root_key j ≡ false
        → equals block_timestamp_key j ≡ false
        → equals event_timestamp_key j ≡ false
        → entry meta d other j after ≡ entry meta d other j s

  pub write-Tail :
      (event_root : Hash) (time before : ℕ) (event_exists : Bool) (s : State)
      → get_latest_block_timestamp meta s ≡ ok before
      → before < 2 ^ 48
      → time < 2 ^ 48
      → IsHash event_root
      → Tail event_root time before event_exists s
  unfolding set_latest_block_timestamp set_event_transaction_root get_latest_block_timestamp
      get_latest_event_timestamp equals
  write-Tail event_root time before event_exists s known small small_time fits =
      let (s₄, e₄, f₄, w₄) = note_event-noted event_exists before s known small in
      let (s₅, e₅, f₅, w₅) =
        put-entry UInt64.serialize UInt64.deserialize time block_timestamp_key s₄
          (Fits-uint64 time small_time) in
      let (s₆, e₆, f₆, w₆) =
        put-entry FixedBytes.serialize hash_deserialize event_root event_root_key s₅
          (Fits-hash event_root fits) in
      record {
        after = s₆;
        runs = rw (e₄, e₅) e₆;
        block_time = past w₆ UInt64.deserialize (ok 0) block_timestamp_key refl ∙ f₅ (ok 0);
        event_time =
            past w₆ UInt64.deserialize (ok 0) event_timestamp_key refl
            ∙ past w₅ UInt64.deserialize (ok 0) event_timestamp_key refl
            ∙ f₄;
        root_found = f₆;
        others = λ d other j r b t. past w₆ d other j r ∙ past w₅ d other j b ∙ past w₄ d other j t;
      }

  -- The first three writes of newHeight, and what they leave to what comes after.
  pub record Head (top : Hash) (height : ℕ) (hashes : List Hash) (s : State) : Type 1 where
    pub after : State
    pub runs :
        (next : State → Result State)
        → (do
          s₁ ← increment_height meta s
          n ← get_height meta s₁
          s₂ ← set_app_root meta n top s₁
          s₃ ← set_valid_transaction_hashes meta n hashes s₂
          next s₃)
          ≡ next after
    pub height_found : get_height meta after ≡ ok (height + 1)
    pub root_found : get_app_root meta (height + 1) after ≡ ok top
    pub hashes_found : get_valid_transaction_hashes meta (height + 1) after ≡ ok hashes
    pub others :
        {A : Type 0} (d : Deserializer A) (other : Result A) (j : Bytes)
        → equals height_key j ≡ false
        → equals (app_root_key (height + 1)) j ≡ false
        → equals (valid_hashes_key (height + 1)) j ≡ false
        → entry meta d other j after ≡ entry meta d other j s

  pub write-Head :
      (top : Hash) (height : ℕ) (hashes : List Hash) (s : State)
      → get_height meta s ≡ ok height
      → height + 1 < 2 ^ 48
      → IsHash top
      → length hashes < 2 ^ 32
      → All IsHash hashes
      → Head top height hashes s
  unfolding increment_height get_height get_app_root set_app_root get_valid_transaction_hashes
      set_valid_transaction_hashes equals app_root_key valid_hashes_key
  write-Head top height hashes s known small fits_top few fits_hashes =
      let n = height + 1 in
      let (s₁, e₁, f₁, w₁) =
        put-entry UInt64.serialize UInt64.deserialize n height_key s (Fits-uint64 n small) in
      let (s₂, e₂, f₂, w₂) =
        put-entry FixedBytes.serialize hash_deserialize top (app_root_key n) s₁
          (Fits-hash top fits_top) in
      let (s₃, e₃, f₃, w₃) =
        put-entry hashes_serialize hashes_deserialize hashes (valid_hashes_key n) s₂ (
          Fits-list FixedBytes.serialize hash_deserialize hashes few
            (all_fit hashes fits_hashes)) in
      let found : get_height meta s₁ ≡ ok n = f₁ (ok 0) in
      record {
        after = s₃;
        runs = λ next. rw (known, e₁, found, e₂, e₃) refl;
        height_found =
            past w₃ UInt64.deserialize (ok 0) height_key refl
            ∙ past w₂ UInt64.deserialize (ok 0) height_key refl
            ∙ found;
        root_found =
            past w₃ hash_deserialize (ok hash_zero) (app_root_key n) refl ∙ f₂ (ok hash_zero);
        hashes_found = f₃ (ok []);
        others = λ d other j h r v. past w₃ d other j v ∙ past w₂ d other j r ∙ past w₁ d other j h;
      }
