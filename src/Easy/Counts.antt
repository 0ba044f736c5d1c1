-- ===== src/Easy/Counts.antt =====
-- packages/easy-framework/src/memcached-implementation.ts: the counts of incr and decr.
use uniqys_kit.Prelude.{ℕ, zero, suc, ◌+◌, ◌-◌, ◌^◌, Option, none, some, if◌then◌else◌, leb}
use uniqys_kit.Prelude.Int.{ℤ, pos, negsuc}

abbrev pub max_safe_integer : ℕ
max_safe_integer = 2 ^ 53 - 1

unfoldable pub add_int : ℤ → ℤ → ℤ
add_int (pos m) (pos n) = pos (m + n)
add_int (pos m) (negsuc n) = if leb (suc n) m then pos (m - suc n) else negsuc (n - m)
add_int (negsuc m) (pos n) = if leb (suc m) n then pos (n - suc m) else negsuc (m - n)
add_int (negsuc m) (negsuc n) = negsuc (suc (m + n))

unfoldable pub negate : ℤ → ℤ
negate (pos zero) = pos 0
negate (pos (suc n)) = negsuc n
negate (negsuc n) = pos (suc n)

-- Math.min(number, MAX_SAFE_INTEGER)
unfoldable pub saturate : ℤ → ℤ
saturate (pos n) = if leb n max_safe_integer then pos n else pos max_safe_integer
saturate (negsuc n) = negsuc n

-- Math.max(number, 0)
unfoldable pub at_least_zero : ℤ → ℤ
at_least_zero (pos n) = pos n
at_least_zero (negsuc n) = pos 0

unfoldable pub incr_count : ℤ → Option ℤ → Option ℤ
unfolding add_int saturate
incr_count value none = none
incr_count value (some count) = some (saturate (add_int count value))

unfoldable pub decr_count : ℤ → Option ℤ → Option ℤ
unfolding add_int negate at_least_zero
decr_count value none = none
decr_count value (some count) = some (at_least_zero (add_int count (negate value)))
