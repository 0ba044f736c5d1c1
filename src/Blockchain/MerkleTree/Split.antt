-- ===== src/Blockchain/MerkleTree/Split.antt =====
-- packages/blockchain/src/merkle-tree.ts, splitPoint: the largest power of two below the length.
use native.Mathlib.Nat.{pow-suc, one-le-pow}
use uniqys_kit.Prelude.{
  ℕ, zero, suc, ◌+◌, ◌*◌, ◌^◌, ◌≤◌, ◌<◌, ◌≡◌, refl, inl, inr, arith, ltb, ltb→lt, lt→ltb,
  Bool-cases,
}
use uniqys_kit.Blockchain.MerkleTree.{double_up, split_point}

-- The loop stops at the first power of two that is not below `x`.
double_up_lem :
    (fuel x n : ℕ)
    → 2 ^ n < x
    → x ≤ 2 ^ n * 2 + fuel
    → (m : ℕ) × (double_up fuel x (2 ^ n * 2) ≡ 2 ^ m * 2) × (2 ^ m < x) × (x ≤ 2 ^ m * 2)
unfolding double_up
double_up_lem zero x n low h = (n, refl, low, omega (arith, h))
double_up_lem (suc fuel) x n low h = elim (Bool-cases (ltb (2 ^ n * 2) x)) [
  | inl more ↦
      rw (more, double_up, ← pow-suc 2 n)
        (double_up_lem fuel x (suc n) (rw pow-suc (ltb→lt _ _ more))
          (rw pow-suc (omega (arith, one-le-pow n 2, h))))
  | inr done ↦ (n, rw (done, double_up), low, ground arith)
]

-- `i = 2^n, i < x <= 2i`
pub split_point_lem :
    (x : ℕ) → 2 ≤ x → (n : ℕ) × (split_point x ≡ 2 ^ n) × (2 ^ n < x) × (x ≤ 2 ^ n * 2)
unfolding split_point double_up
split_point_lem zero h = absurd (omega arith)
split_point_lem (suc f) h =
    let (m, e, low, high) = double_up_lem f (suc f) 0 h (omega arith) in
    let first : double_up (suc f) (suc f) 1 ≡ double_up f (suc f) 2 =
      rw (lt→ltb 1 (suc f) h, double_up) in
    (m, rw (first, e) (omega arith), low, high)
