-- ===== src/Easy/TextLines.antt =====
-- packages/easy-framework/src/memcached-compatible-server/protocol.ts: what it does with buffers and lines.
use uniqys_kit.Prelude.{
  ℕ, suc, ◌+◌, ◌-◌, ◌==◌, Bool, true, false, ◌&&◌, Option, none, some, List, [], ◌∷◌, if◌then◌else◌,
  leb, length, take, drop,
}
use uniqys_kit.Prelude.Int.{ℤ, pos, negsuc}
use uniqys_kit.Types.FixedBytes.{Bytes}
use uniqys_kit.Easy.Parameters.{Text}

-- buffer.slice(0, end) and buffer.slice(start): a negative index counts from the end.
unfoldable pub slice_to : ℤ → Bytes → Bytes
slice_to (pos n) chunk = take n chunk
slice_to (negsuc n) chunk = take (length chunk - suc n) chunk

unfoldable pub slice_from : ℤ → Bytes → Bytes
slice_from (pos n) chunk = drop n chunk
slice_from (negsuc n) chunk = drop (length chunk - suc n) chunk

-- `chunk.byteLength >= this.remainBytes`
unfoldable pub is_enough : ℤ → Bytes → Bool
is_enough (pos n) chunk = leb n (length chunk)
is_enough (negsuc n) chunk = true

unfoldable pub minus : ℤ → ℕ → ℤ
minus (pos n) size = if leb size n then pos (n - size) else negsuc (size - n - 1)
minus (negsuc n) size = negsuc (n + size)

-- line.split(' '): the first word, and the others.
unfoldable pub split : Text → Text × List Text
split [] = ([], [])
split (c ∷ cs) =
    let (word, words) = split cs in if c == b' ' then ([], word ∷ words) else (c ∷ word, words)

-- The bytes before the first CR LF, and those after it.
unfoldable pub prefixed : ℕ → Option (Bytes × Bytes) → Option (Bytes × Bytes)
prefixed x none = none
prefixed x (some (line, rest)) = some (x ∷ line, rest)

unfoldable pub is_lf : Bytes → Bool
is_lf [] = false
is_lf (x ∷ xs) = x == 10

unfoldable pub find_crlf : Bytes → Option (Bytes × Bytes)
unfolding prefixed is_lf
find_crlf [] = none
find_crlf (x ∷ xs) =
    let found = prefixed x (find_crlf xs) in
    if x == 13 && is_lf xs then some ([], drop 1 xs) else found
