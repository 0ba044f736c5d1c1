-- ===== src/Easy/Memcached/Commands.antt =====
-- packages/easy-framework/src/memcached-implementation.ts: what the operations are to do.
use uniqys_kit.Prelude.{ℕ, ◌+◌, Bool, Option, none, some, ◌++◌, if◌then◌else◌, ◌==◌, Result}
use uniqys_kit.Prelude.Int.{ℤ}
use uniqys_kit.Types.FixedBytes.{Bytes}
use uniqys_kit.Store.Interface.{Store}
use uniqys_kit.Easy.Item.{Item}
use uniqys_kit.Easy.Memcached.{
  EasyMemcached, Response, stored, not_stored, exists, not_found, deleted, number, Platform, set,
  add, replace, append, prepend, cas, delete, incr, decr,
}
use uniqys_kit.Easy.Memcached.Limits.{change_by, increased, decreased}

-- The operations that a client may send for a key.
pub data Command : Type 0 where
  set_to : ℕ → Bytes → Command
  add_to : ℕ → Bytes → Command
  replace_with : ℕ → Bytes → Command
  append_to : Bytes → Command
  prepend_to : Bytes → Command
  check_and_set : ℕ → ℕ → Bytes → Command
  remove : Command
  increment : ℤ → Command
  decrement : ℤ → Command

-- The number of the item that is there.
abbrev pub unique_of : Option Item → ℕ
unique_of none = 0
unique_of (some i) = i.cas_uniq

module _ {State Text : Type 0} (store : Store State Bytes) (platform : Platform Text)
    (use_cas : Bool) where
  abbrev pub run : Text → Command → EasyMemcached State → Result (Response × EasyMemcached State)
  run text (set_to flags bytes) = set store platform use_cas text flags bytes
  run text (add_to flags bytes) = add store platform use_cas text flags bytes
  run text (replace_with flags bytes) = replace store platform use_cas text flags bytes
  run text (append_to bytes) = append store platform use_cas text bytes
  run text (prepend_to bytes) = prepend store platform use_cas text bytes
  run text (check_and_set flags unique bytes) = cas store platform use_cas text flags unique bytes
  run text remove = delete store platform use_cas text
  run text (increment value) = incr store platform use_cas text value
  run text (decrement value) = decr store platform use_cas text value

  -- The item with the new count.
  abbrev pub counted : Option ℤ → Item → Response × Option Item
  counted count i = (
    number count,
    some (record {
      flags = i.flags;
      cas_uniq = i.cas_uniq + 1;
      data_bytes = platform.print_int count;
    }),
  )

  -- The reply to a command, and the item that is there after it, by the item that was there.
  abbrev pub next : Command → Option Item → Response × Option Item
  next (set_to flags bytes) o = (
    stored,
    some (record {
      flags = flags;
      cas_uniq = (if use_cas then unique_of o else 0) + 1;
      data_bytes = bytes;
    }),
  )
  next (add_to flags bytes) none =
      (stored, some (record { flags = flags; cas_uniq = 1; data_bytes = bytes }))
  next (increment value) (some i) =
      counted (change_by (increased value) (platform.parse_int i.data_bytes)) i
  next (decrement value) (some i) =
      counted (change_by (decreased value) (platform.parse_int i.data_bytes)) i
  next (replace_with flags bytes) (some i) =
      (stored, some (record { flags = flags; cas_uniq = i.cas_uniq + 1; data_bytes = bytes }))
  next (append_to bytes) (some i) =
      (stored, some (record i { cas_uniq = i.cas_uniq + 1; data_bytes = i.data_bytes ++ bytes }))
  next (prepend_to bytes) (some i) =
      (stored, some (record i { cas_uniq = i.cas_uniq + 1; data_bytes = bytes ++ i.data_bytes }))
  next (check_and_set flags unique bytes) (some i) =
      if i.cas_uniq == unique
      then (stored, some (record { flags = flags; cas_uniq = i.cas_uniq + 1; data_bytes = bytes }))
      else (exists, some i)
  next remove (some i) = (deleted, none)
  next (add_to flags bytes) (some i) = (not_stored, some i)
  next (replace_with flags bytes) none = (not_stored, none)
  next (append_to bytes) none = (not_stored, none)
  next (prepend_to bytes) none = (not_stored, none)
  next _ none = (not_found, none)
