-- ===== src/Easy/Memcached.antt =====
-- packages/easy-framework/src/memcached-implementation.ts: EasyMemcached, over any store of buffers.
-- An operation that throws has written nothing, so that an error carries no state, and the mutex
-- makes each operation one step. incr and decr take an
-- integer: amounts that are no number or infinite, and sums that a number does not hold exactly, are
-- left out.
pub mod Limits
pub mod Commands
pub mod Refinement
use uniqys_kit.Prelude.{
  ℕ, suc, ◌+◌, ◌-◌, ◌^◌, Bool, true, false, Option, none, some, List, [], ◌∷◌, ◌++◌, leb, ltb, ◌==◌,
  if◌then◌else◌, Result, ok, err, ◌>>=◌, ◌>>◌, guard, read_only_mode, unsupported_argument,
}
use uniqys_kit.Prelude.Int.{ℤ, pos, negsuc}
use uniqys_kit.Serialize.Codec
use uniqys_kit.Types.FixedBytes.{Bytes}
use uniqys_kit.Store.Interface.{Store}
use uniqys_kit.Easy.Item.{Item, item_serializer, item_deserializer}
use uniqys_kit.Easy.Counts.{incr_count, decr_count}

pub data OperationMode : Type 0 where
  read_write : OperationMode
  read_only : OperationMode

-- A number that is not a number is none.
pub data Response : Type 0 where
  stored : Response
  not_stored : Response
  exists : Response
  not_found : Response
  deleted : Response
  done : Response
  number : Option ℤ → Response

pub record ValueS (Text : Type 0) : Type 0 where
  pub key : Text
  pub flags : ℕ
  pub data_bytes : Bytes
  pub cas : ℕ

-- What the platform does: Buffer.from(text, 'utf8'), parseInt(buffer.toString(), 10), and
-- Buffer.from(number.toString(10)).
pub record Platform (Text : Type 0) : Type 0 where
  pub utf8 : Text → Bytes
  pub parse_int : Bytes → Option ℤ
  pub print_int : Option ℤ → Bytes

pub record EasyMemcached (State : Type 0) : Type 0 where
  pub mode : OperationMode
  pub store : State

unfoldable pub is_writable : OperationMode → Bool
is_writable read_write = true
is_writable read_only = false

module _ {State Text : Type 0} (store : Store State Bytes) (platform : Platform Text)
    (use_cas : Bool) where
  -- `options.defaultMode || OperationMode.ReadOnly`: ReadWrite is 0, which counts as missing.
  unfoldable pub new_memcached : State → Option OperationMode → EasyMemcached State
  new_memcached s none = record { mode = read_only; store = s }
  new_memcached s (some read_write) = record { mode = read_only; store = s }
  new_memcached s (some read_only) = record { mode = read_only; store = s }

  unfoldable pub change_mode : OperationMode → EasyMemcached State → EasyMemcached State
  change_mode mode s = record s { mode = mode }

  unfoldable pub check_writable : EasyMemcached State → Result (Unit {0})
  unfolding is_writable
  check_writable s = guard (is_writable s.mode) read_only_mode

  -- The item of an entry of the store.
  unfoldable pub decode_item : Option Bytes → Result (Option Item)
  unfolding item_deserializer
  decode_item none = ok none
  decode_item (some value) = do
    item ← Codec.deserialize (item_deserializer use_cas) value
    ok (some item)

  unfoldable pub read_item : Bytes → EasyMemcached State → Result (Option Item)
  unfolding decode_item
  read_item key s = decode_item (store.get key s.store)

  unfoldable pub write_item :
      Response → Bytes → Item → EasyMemcached State → Result (Response × EasyMemcached State)
  unfolding item_serializer
  write_item response key item s = do
    bytes ← Codec.serialize (item_serializer use_cas) item
    ok (response, record s { store = store.set key bytes s.store })

  unfoldable pub get_and_act :
      Text
      → (Bytes → Option Item → EasyMemcached State → Result (Response × EasyMemcached State))
      → EasyMemcached State
      → Result (Response × EasyMemcached State)
  unfolding check_writable read_item
  get_and_act text action s = do
    check_writable s
    item ← read_item (platform.utf8 text) s
    action (platform.utf8 text) item s

  unfoldable pub cas_of : Option Item → ℕ
  cas_of none = 0
  cas_of (some item) = item.cas_uniq

  -- Without cas the entry is not read.
  unfoldable pub set :
      Text → ℕ → Bytes → EasyMemcached State → Result (Response × EasyMemcached State)
  unfolding check_writable read_item cas_of write_item
  set text flags data_bytes s = do
    check_writable s
    cas_uniq ←
        (if use_cas then (read_item (platform.utf8 text) s >>= λ item. ok (cas_of item)) else ok 0)
    write_item stored (platform.utf8 text)
        (record { flags = flags; cas_uniq = cas_uniq + 1; data_bytes = data_bytes }) s

  unfoldable pub add_act :
      ℕ
      → Bytes
      → Bytes
      → Option Item
      → EasyMemcached State
      → Result (Response × EasyMemcached State)
  unfolding write_item
  add_act flags data_bytes key none s =
      write_item stored key (record { flags = flags; cas_uniq = 1; data_bytes = data_bytes }) s
  add_act flags data_bytes key (some i) s = ok (not_stored, s)

  unfoldable pub add :
      Text → ℕ → Bytes → EasyMemcached State → Result (Response × EasyMemcached State)
  unfolding get_and_act add_act
  add text flags data_bytes = get_and_act text (add_act flags data_bytes)

  unfoldable pub replace_act :
      ℕ
      → Bytes
      → Bytes
      → Option Item
      → EasyMemcached State
      → Result (Response × EasyMemcached State)
  unfolding write_item
  replace_act flags data_bytes key none s = ok (not_stored, s)
  replace_act flags data_bytes key (some i) s =
      write_item stored key
        (record { flags = flags; cas_uniq = i.cas_uniq + 1; data_bytes = data_bytes }) s

  unfoldable pub replace :
      Text → ℕ → Bytes → EasyMemcached State → Result (Response × EasyMemcached State)
  unfolding get_and_act replace_act
  replace text flags data_bytes = get_and_act text (replace_act flags data_bytes)

  unfoldable pub append_act :
      Bytes → Bytes → Option Item → EasyMemcached State → Result (Response × EasyMemcached State)
  unfolding write_item
  append_act data_bytes key none s = ok (not_stored, s)
  append_act data_bytes key (some i) s =
      write_item stored key
        (record {
          flags = i.flags;
          cas_uniq = i.cas_uniq + 1;
          data_bytes = i.data_bytes ++ data_bytes;
        })
        s

  unfoldable pub append :
      Text → Bytes → EasyMemcached State → Result (Response × EasyMemcached State)
  unfolding get_and_act append_act
  append text data_bytes = get_and_act text (append_act data_bytes)

  unfoldable pub prepend_act :
      Bytes → Bytes → Option Item → EasyMemcached State → Result (Response × EasyMemcached State)
  unfolding write_item
  prepend_act data_bytes key none s = ok (not_stored, s)
  prepend_act data_bytes key (some i) s =
      write_item stored key
        (record {
          flags = i.flags;
          cas_uniq = i.cas_uniq + 1;
          data_bytes = data_bytes ++ i.data_bytes;
        })
        s

  unfoldable pub prepend :
      Text → Bytes → EasyMemcached State → Result (Response × EasyMemcached State)
  unfolding get_and_act prepend_act
  prepend text data_bytes = get_and_act text (prepend_act data_bytes)

  unfoldable pub cas_act :
      ℕ
      → ℕ
      → Bytes
      → Bytes
      → Option Item
      → EasyMemcached State
      → Result (Response × EasyMemcached State)
  unfolding write_item
  cas_act flags cas_uniq data_bytes key none s = ok (not_found, s)
  cas_act flags cas_uniq data_bytes key (some i) s =
      if i.cas_uniq == cas_uniq
      then write_item stored key
          (record { flags = flags; cas_uniq = i.cas_uniq + 1; data_bytes = data_bytes }) s
      else ok (exists, s)

  unfoldable pub cas :
      Text → ℕ → ℕ → Bytes → EasyMemcached State → Result (Response × EasyMemcached State)
  unfolding get_and_act cas_act
  cas text flags cas_uniq data_bytes = get_and_act text (cas_act flags cas_uniq data_bytes)

  unfoldable pub delete_act :
      Bytes → Option Item → EasyMemcached State → Result (Response × EasyMemcached State)
  delete_act key none s = ok (not_found, s)
  delete_act key (some i) s = ok (deleted, record s { store = store.delete key s.store })

  unfoldable pub delete : Text → EasyMemcached State → Result (Response × EasyMemcached State)
  unfolding get_and_act delete_act
  delete text = get_and_act text delete_act

  unfoldable pub count_act :
      (Option ℤ → Option ℤ)
      → Bytes
      → Option Item
      → EasyMemcached State
      → Result (Response × EasyMemcached State)
  unfolding write_item
  count_act change key none s = ok (not_found, s)
  count_act change key (some i) s =
      let count = change (platform.parse_int i.data_bytes) in
      write_item (number count) key
        (record {
          flags = i.flags;
          cas_uniq = i.cas_uniq + 1;
          data_bytes = platform.print_int count;
        })
        s

  -- incr and decr, which differ in what they do to the count
  unfoldable pub count_with :
      (Option ℤ → Option ℤ) → Text → EasyMemcached State → Result (Response × EasyMemcached State)
  unfolding get_and_act count_act
  count_with change text = get_and_act text (count_act change)

  unfoldable pub incr : Text → ℤ → EasyMemcached State → Result (Response × EasyMemcached State)
  unfolding count_with incr_count
  incr text value = count_with (incr_count value) text

  unfoldable pub decr : Text → ℤ → EasyMemcached State → Result (Response × EasyMemcached State)
  unfolding count_with decr_count
  decr text value = count_with (decr_count value) text

  -- What is yielded, and how the generator ends.
  unfoldable pub gets : List Text → EasyMemcached State → List (ValueS Text) × Result (Unit {0})
  unfolding read_item
  gets [] s = ([], ok tt)
  gets (text ∷ texts) s =
      let (values, end) = gets texts s in
      elim (read_item (platform.utf8 text) s) [
        | err e ↦ ([], err e)
        | ok none ↦ (values, end)
        | ok (some i) ↦ (
          record { key = text; flags = i.flags; data_bytes = i.data_bytes; cas = i.cas_uniq }
              ∷ values,
          end,
        )
      ]

  unfoldable pub flush : EasyMemcached State → Result (Response × EasyMemcached State)
  unfolding check_writable
  flush s = do
    check_writable s
    cleared ← store.clear none s.store
    ok (done, record s { store = cleared })
