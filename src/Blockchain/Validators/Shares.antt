-- ===== src/Blockchain/Validators/Shares.antt =====
-- packages/blockchain/src/consensus.ts: the power of several validators of a ValidatorSet together.
use uniqys_kit.Prelude.{
  ℕ, ◌+◌, ◌≤◌, ◌≡◌, refl, Bool, true, false, ◌&&◌, ◌||◌, Bool-cases, inl, inr, Option, none, some,
  List, [], ◌∷◌, if◌then◌else◌, ◌==◌, arith, ok,
}
use uniqys_kit.Types.ByteMap
use uniqys_kit.Types.ByteMap.{ByteMap, get-set}
use uniqys_kit.Types.FixedBytes.{equals, equals→eq, equals_refl}
use uniqys_kit.Signature.{Address}
use uniqys_kit.Blockchain.Validators.{
  Validator, ValidatorSet, fill_power, power_map, power_or_throw, power_of, total_power,
}

-- The power of the validators that satisfy a test.
unfoldable pub power_by : (Address → Bool) → ValidatorSet → ℕ
power_by test [] = 0
power_by test (v ∷ vs) = (if test v.address then v.power else 0) + power_by test vs

unfoldable pub is_one_of : List Address → Address → Bool
is_one_of [] b = false
is_one_of (a ∷ addresses) b = equals a b || is_one_of addresses b

-- Two tests hold together on what both add up to beyond the total.
pub power_by-both :
    (p q : Address → Bool) (vs : ValidatorSet)
    → power_by p vs + power_by q vs ≤ total_power vs + power_by (λ a. p a && q a) vs
unfolding power_by total_power
power_by-both p q [] = omega arith
power_by-both p q (v ∷ vs) = ground (arith, power_by-both p q vs)

-- Tests that never hold together.
pub power_by-either :
    (p q : Address → Bool) (vs : ValidatorSet)
    → ((a : Address) → p a ≡ true → q a ≡ false)
    → power_by p vs + power_by q vs ≤ power_by (λ a. p a || q a) vs
unfolding power_by
power_by-either p q [] apart = omega arith
power_by-either p q (v ∷ vs) apart = ground (arith, power_by-either p q vs apart, apart v.address)

-- One more entry of the map.
set-le :
    (a : Address) (m : ByteMap ℕ) (v : Validator) (k q : ℕ)
    → ((q : ℕ) → ByteMap.get a m ≡ some q → q ≤ k)
    → ByteMap.get a (ByteMap.set v.address v.power m) ≡ some q
    → q ≤ k + (if equals a v.address then v.power else 0)
set-le a m v k q before found = elim (Bool-cases (equals v.address a)) [
  | inl same ↦
      let here : equals a v.address ≡ true = rw (equals→eq v.address a same) (equals_refl a) in
      let it : some v.power ≡ some q = rw (get-set v.address a v.power m, same) at found in
      let value : v.power ≡ q = cc in rw here (omega (arith, value))
  | inr other ↦
      let there : ByteMap.get a m ≡ some q = rw (get-set v.address a v.power m, other) at found in
      omega (arith, before q there)
]

-- The map of the powers gives a power that stands in the set, or one that was there before.
fill_power-le :
    (a : Address) (m : ByteMap ℕ) (vs : ValidatorSet) (k p : ℕ)
    → ((q : ℕ) → ByteMap.get a m ≡ some q → q ≤ k)
    → ByteMap.get a (fill_power m vs) ≡ some p
    → p ≤ k + power_by (equals a) vs
unfolding fill_power power_by
fill_power-le a m [] k p before found = omega (arith, before p found)
fill_power-le a m (v ∷ vs) k p before found =
    let rest =
      fill_power-le a (ByteMap.set v.address v.power m) vs
        (k + (if equals a v.address then v.power else 0)) p (λ q e. set-le a m v k q before e)
        found in
    omega (arith, rest)

power_found-le :
    (a : Address) (vs : ValidatorSet) (p : ℕ) (o : Option ℕ)
    → ByteMap.get a (fill_power [] vs) ≡ o
    → power_or_throw o ≡ ok p
    → p ≤ power_by (equals a) vs
unfolding power_or_throw ByteMap.get
power_found-le a vs p none found e = cc
power_found-le a vs p (some q) found e =
    let most = fill_power-le a [] vs 0 q (λ r h. absurd cc) found in
    elim (Bool-cases (q == 0)) [
      | inl zero_power ↦ cc (rw zero_power at e)
      | inr other ↦
          (let same : ok q ≡ ok p = rw other at e in
            let value : q ≡ p = cc in omega (arith, most, value))
    ]

pub power_of-le :
    (a : Address) (vs : ValidatorSet) (p : ℕ) → power_of vs a ≡ ok p → p ≤ power_by (equals a) vs
unfolding power_of power_or_throw power_map
power_of-le a vs p e = power_found-le a vs p (ByteMap.get a (fill_power [] vs)) refl e
