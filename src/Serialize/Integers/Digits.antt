-- ===== src/Serialize/Integers/Digits.antt =====
-- packages/serialize/src/index.ts: the big-endian bytes of a number, and what the unsigned reads and
-- writes do with them.
use native.Mathlib.Nat.{mod-lt, div-add-mod', one-le-pow}
use uniqys_kit.Prelude.{
  ℕ, zero, suc, ◌+◌, ◌%◌, ◌^◌, ◌<◌, ◌≡◌, refl, sym, ap, ◌∙◌, List, [], ◌++◌, append-nil, arith, ok,
  ◌>>=◌, length, take, drop, length-append, length-replicate, replicate-append, take_all,
  drop-append, lt→ltb, le→ltb,
}
use uniqys_kit.Serialize.Buffer.{alloc, ensure, consume, write_through}
use uniqys_kit.Serialize.Buffer.Bytes.{Holds, ensure-Holds, write_through-Holds}
use uniqys_kit.Serialize.Integers.{be_bytes, be_value, write_uint_be, read_uint_be}
use uniqys_kit.Serialize.Codec.{Writes, Reads, consume_lem}

abbrev pub IsByte : ℕ → Type 0
IsByte b = b < 256

pow_pos : (k : ℕ) → 0 < 256 ^ k
pow_pos k = one-le-pow k 256 (omega arith)

pub length-be_bytes : (k n : ℕ) → length (be_bytes k n) ≡ k
unfolding be_bytes
length-be_bytes zero n = refl
length-be_bytes (suc k) n = ap suc (length-be_bytes k (n % 256 ^ k))

-- A number below 256 ^ k is the value of its `k` bytes.
pub be_value-be_bytes : (k n : ℕ) → n < 256 ^ k → be_value (be_bytes k n) ≡ n
unfolding be_bytes be_value
be_value-be_bytes zero n h = omega arith
be_value-be_bytes (suc k) n h =
    rw (length-be_bytes k (n % 256 ^ k), be_value-be_bytes k (n % 256 ^ k) (mod-lt n (pow_pos k)))
      (div-add-mod' n (256 ^ k))

pub uint-Writes :
    (o k n : ℕ)
    → n < 256 ^ k
    → Writes
        (λ w. let (slice, w') = ensure (o + k) w in write_uint_be slice n o k w')
        (alloc o ++ be_bytes k n)
unfolding write_uint_be
uint-Writes o k n h w c holds =
    let (slice, holds') = ensure-Holds (o + k) holds in
    let split : alloc (o + k) ≡ alloc o ++ (alloc k ++ []) =
      rw append-nil (sym (replicate-append o k 0)) in
    let w' = (ensure (o + k) w).1 in
    let target : Holds (write_through (length c) (length (alloc o)) (be_bytes k n) w')
        (c ++ (alloc o ++ (be_bytes k n ++ []))) =
      write_through-Holds c (alloc o) (alloc k) (be_bytes k n) []
        (length-replicate k 0 ∙ sym (length-be_bytes k n)) (rw split at holds') in
    (
      write_through (length c) o (be_bytes k n) w',
      rw (slice, lt→ltb _ _ h) refl,
      rw (length-replicate {A = ℕ} o 0, append-nil) at target,
    )

-- What stands in front of the `k` bytes is skipped, whatever it is.
pub digits_at :
    (skipped : List ℕ) (k n : ℕ)
    → n < 256 ^ k
    → (length (skipped ++ be_bytes k n) ≡ length skipped + k)
      × (be_value (take k (drop (length skipped) (skipped ++ be_bytes k n))) ≡ n)
digits_at skipped k n h =
    let size = length-be_bytes k n in
    (
      length-append skipped (be_bytes k n) ∙ ap (λ m. length skipped + m) size,
      rw (drop-append skipped (be_bytes k n), take_all k (be_bytes k n) (omega (arith, size)))
          (be_value-be_bytes k n h),
    )

read_uint_be-digits :
    (skipped : List ℕ) (k n : ℕ)
    → n < 256 ^ k
    → read_uint_be (length skipped) k (skipped ++ be_bytes k n) ≡ ok n
unfolding read_uint_be
read_uint_be-digits skipped k n h =
    let (size, value) = digits_at skipped k n h in
    rw (size, le→ltb (length skipped + k) (length skipped + k) (omega arith), value)

pub uint-Reads :
    (o k n : ℕ)
    → n < 256 ^ k
    → Reads
        (λ r. let (bytes, r') = consume (o + k) r in read_uint_be o k bytes >>= λ m. ok (m, r'))
        n
        (alloc o ++ be_bytes k n)
uint-Reads o k n h r rest e =
    let size : length (alloc o ++ be_bytes k n) ≡ o + k =
      (digits_at (alloc o) k n h).0 ∙ ap (λ m. m + k) (length-replicate {A = ℕ} o 0) in
    let (taken, left) = rw size at (consume_lem r (alloc o ++ be_bytes k n) rest e) in
    let value : read_uint_be o k (alloc o ++ be_bytes k n) ≡ ok n =
      rw (length-replicate {A = ℕ} o 0) at (read_uint_be-digits (alloc o) k n h) in
    ((consume (o + k) r).1, rw (taken, value) refl, left)
