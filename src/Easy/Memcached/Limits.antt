-- ===== src/Easy/Memcached/Limits.antt =====
-- packages/easy-framework/src/memcached-implementation.ts: which counts incr and decr are to give. An
-- integer is the difference of its two parts, of which one is 0.
use uniqys_kit.Prelude.{
  ℕ, zero, suc, ◌+◌, ◌-◌, ◌≡◌, refl, ap, Option, none, some, if◌then◌else◌, leb, true, false, arith,
  Bool-cases, inl, inr,
}
use uniqys_kit.Prelude.Int.{ℤ, pos, negsuc}
use uniqys_kit.Easy.Counts.{
  max_safe_integer, add_int, negate, saturate, at_least_zero, incr_count, decr_count,
}

unfoldable pub above : ℤ → ℕ
above (pos n) = n
above (negsuc n) = 0

unfoldable pub below : ℤ → ℕ
below (pos n) = 0
below (negsuc n) = suc n

unfoldable pub difference : ℕ → ℕ → ℤ
difference m n = if leb n m then pos (m - n) else negsuc (n - m - 1)

-- The sum, and at most the largest integer that is safe.
unfoldable pub increased : ℤ → ℤ → ℤ
unfolding above below difference
increased value count =
    let down = below count + below value in
    let up = above count + above value in
    difference (if leb up (down + max_safe_integer) then up else down + max_safe_integer) down

-- The difference, and at least 0.
unfoldable pub decreased : ℤ → ℤ → ℤ
unfolding above below difference
decreased value count =
    let down = below count + above value in
    let up = above count + below value in difference (if leb down up then up else down) down

saturate-difference :
    (m n : ℕ)
    → saturate (difference m n)
      ≡ difference (if leb m (n + max_safe_integer) then m else n + max_safe_integer) n
unfolding saturate difference
saturate-difference m n = elim (Bool-cases (leb n m)) [
  | inl over ↦ elim (Bool-cases (leb m (n + max_safe_integer))) [
    | inl small ↦
        let fits : leb (m - n) max_safe_integer ≡ true = ground arith in
        rw (over, small, fits, over) refl
    | inr large ↦
        let exceeds : leb (m - n) max_safe_integer ≡ false = ground arith in
        let over' : leb n (n + max_safe_integer) ≡ true = ground arith in
        rw (over, large, exceeds, over') (ap pos (omega arith))
  ]
  | inr under ↦
      let small : leb m (n + max_safe_integer) ≡ true = ground arith in
      rw (under, small, under) refl
]

at_least_zero-difference :
    (m n : ℕ) → at_least_zero (difference m n) ≡ difference (if leb n m then m else n) n
unfolding at_least_zero difference
at_least_zero-difference m n = elim (Bool-cases (leb n m)) [
  | inl over ↦ rw (over, over) refl
  | inr under ↦ let same : leb n n ≡ true = ground arith in rw (under, same) (ap pos (omega arith))
]

add_int-difference : (x y : ℤ) → add_int x y ≡ difference (above x + above y) (below x + below y)
unfolding add_int difference above below
add_int-difference (pos m) (pos n) = ground arith
add_int-difference (pos m) (negsuc n) = ground arith
add_int-difference (negsuc m) (pos n) = ground arith
add_int-difference (negsuc m) (negsuc n) = ground arith

above-negate : (x : ℤ) → (above (negate x) ≡ below x) × (below (negate x) ≡ above x)
unfolding above below negate
above-negate (pos zero) = (refl, refl)
above-negate (pos (suc n)) = (refl, refl)
above-negate (negsuc n) = (refl, refl)

incr_count-increased :
    (value count : ℤ) → incr_count value (some count) ≡ some (increased value count)
unfolding incr_count increased
incr_count-increased value count =
    rw (add_int-difference count value) (ap some (saturate-difference _ _))

decr_count-decreased :
    (value count : ℤ) → decr_count value (some count) ≡ some (decreased value count)
unfolding decr_count decreased
decr_count-decreased value count =
    let (up, down) = above-negate value in
    rw (add_int-difference count (negate value), up, down) (ap some (at_least_zero-difference _ _))

-- The count after each, or none for what is no number.
abbrev pub change_by : (ℤ → ℤ) → Option ℤ → Option ℤ
change_by f none = none
change_by f (some count) = some (f count)

pub incr_count-change_by :
    (value : ℤ) (count : Option ℤ) → incr_count value count ≡ change_by (increased value) count
unfolding incr_count
incr_count-change_by value none = refl
incr_count-change_by value (some count) = incr_count-increased value count

pub decr_count-change_by :
    (value : ℤ) (count : Option ℤ) → decr_count value count ≡ change_by (decreased value) count
unfolding decr_count
decr_count-change_by value none = refl
decr_count-change_by value (some count) = decr_count-decreased value count
