-- ===== src/Store/InMemory.antt =====
-- packages/store/src/index.ts: InMemoryStore
use uniqys_kit.Prelude.{
  Bool, true, false, Option, none, some, [], ◌∷◌, ◌&&◌, Result, ok, ◌≡◌, ◌==◌, if◌then◌else◌, arith,
}
use uniqys_kit.Types.FixedBytes.{Bytes, equals→eq}
use uniqys_kit.Types.ByteMap
use uniqys_kit.Types.ByteMap.{ByteMap, get-set, get-delete}
use uniqys_kit.Store.Interface.{Store, StoreLaws}

-- The hex string of `prefix` is a prefix of that of the key.
unfoldable pub starts_with : Bytes → Bytes → Bool
starts_with [] key = true
starts_with (p ∷ prefix) [] = false
starts_with (p ∷ prefix) (k ∷ key) = (p == k) && starts_with prefix key

module _ {Value : Type 0} where
  -- `value ? Optional.some(value) : Optional.none()`: `truthy` is the test on a value.
  unfoldable pub get : (Value → Bool) → Bytes → ByteMap Value → Option Value
  get truthy key store = elim (ByteMap.get key store) [
    | none ↦ none
    | some value ↦ if truthy value then some value else none
  ]

  unfoldable pub clear_keys : Bytes → ByteMap Value → ByteMap Value
  clear_keys prefix [] = []
  clear_keys prefix ((key, value) ∷ store) =
      let rest = clear_keys prefix store in
      if starts_with prefix key then rest else (key, value) ∷ rest

  unfoldable pub clear : Option Bytes → ByteMap Value → Result (ByteMap Value)
  unfolding clear_keys
  clear none store = ok []
  clear (some prefix) store = ok (clear_keys prefix store)

  unfoldable pub in_memory : (Value → Bool) → Store (ByteMap Value) Value
  unfolding get clear
  in_memory truthy = record {
    get = get truthy;
    set = ByteMap.set;
    delete = ByteMap.delete;
    clear = clear;
  }

  -- A store of values that are all true, as buffers are, is a map.
  pub in_memory-StoreLaws :
      (truthy : Value → Bool)
      → ((v : Value) → truthy v ≡ true)
      → StoreLaws (ByteMap Value) Value (in_memory truthy)
  unfolding in_memory get
  in_memory-StoreLaws truthy all = record {
    get-set = λ k j v s. grind (arith, get-set k j v s, all);
    get-delete = λ k j s. grind (arith, get-delete k j s, all);
  }

  -- clear with a prefix takes away the keys that begin with it, and no others.
  pub get-clear_keys :
      (prefix key : Bytes) (s : ByteMap Value)
      → ByteMap.get key (clear_keys prefix s)
        ≡ (if starts_with prefix key then none else ByteMap.get key s)
  unfolding ByteMap.get clear_keys
  get-clear_keys prefix key [] = ground arith
  get-clear_keys prefix key ((j, v) ∷ s) =
      ground (arith, get-clear_keys prefix key s, equals→eq j key)
