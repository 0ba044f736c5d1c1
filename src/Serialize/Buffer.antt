-- ===== src/Serialize/Buffer.antt =====
-- packages/serialize/src/index.ts: BufferWriter and BufferReader over byte lists.
pub mod Bytes
use uniqys_kit.Prelude.{
  ℕ, zero, suc, ◌+◌, ◌*◌, ◌-◌, true, false, List, ◌++◌, ltb, if◌then◌else◌, length, take, drop,
  replicate,
}

-- The backing store (allocated with zeros) and the number of its bytes in use.
pub record BufferWriter : Type 0 where
  pub store : List ℕ
  pub written : ℕ

-- Buffer.alloc(n)
abbrev pub alloc : ℕ → List ℕ
alloc n = replicate n 0

-- src.copy(target, start): the bytes that fit are written over those of the target.
unfoldable pub copy : List ℕ → ℕ → List ℕ → List ℕ
copy source start target =
    take start target
    ++ (take (length target - start) source ++ drop (start + length source) target)

-- new BufferWriter(): no size is given, so 64
unfoldable pub new_writer : BufferWriter
new_writer = record { store = alloc 64; written = 0 }

-- get buffer()
unfoldable pub contents : BufferWriter → List ℕ
contents w = take w.written w.store

-- `while (need > next) { next = next * 2 }` with fuel
unfoldable pub grow : ℕ → ℕ → ℕ → ℕ
grow zero need next = next
grow (suc fuel) need next = elim (ltb next need) [ true ↦ grow fuel need (next * 2) | false ↦ next ]

-- A positive size doubles at most `need` times.
unfoldable pub resize : ℕ → BufferWriter → BufferWriter
resize need w =
    let current = length w.store in
    if ltb current need
    then record w { store = copy w.store 0 (alloc (grow need need current)) }
    else w

unfoldable pub append : List ℕ → BufferWriter → BufferWriter
append bytes w =
    let w' = resize (w.written + length bytes) w in
    record { store = copy bytes w'.written w'.store; written = w'.written + length bytes }

-- The result is the offset of the slice handed out, through which the caller writes the store.
unfoldable pub ensure : ℕ → BufferWriter → ℕ × BufferWriter
ensure n w =
    let w' = resize (w.written + n) w in (w'.written, record w' { written = w'.written + n })

-- A write of `bytes` through such a slice, `offset` bytes into it.
unfoldable pub write_through : ℕ → ℕ → List ℕ → BufferWriter → BufferWriter
write_through slice offset bytes w = record w { store = copy bytes (slice + offset) w.store }

pub record BufferReader : Type 0 where
  pub store : List ℕ
  pub start : ℕ

unfoldable pub new_reader : List ℕ → BufferReader
new_reader bytes = record { store = bytes; start = 0 }

-- get buffer(): what is left to read
unfoldable pub remaining : BufferReader → List ℕ
remaining r = drop r.start r.store

-- The slice is shorter where the store ends.
unfoldable pub consume : ℕ → BufferReader → List ℕ × BufferReader
consume n r = (take n (drop r.start r.store), record r { start = r.start + n })
