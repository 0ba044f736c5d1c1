-- ===== src/Queue.antt =====
-- packages/priority-queue/src/index.ts: Utility and PriorityQueue. The array is a function of the
-- index, and `undefined` is what an index holds that is not in use.
pub mod Contents
pub mod Order
use uniqys_kit.Prelude.{
  ℕ, zero, suc, ◌+◌, ◌*◌, ◌-◌, ◌/◌, ◌==◌, ◌≡◌, Bool, true, false, Option, none, some, ◌||◌,
  if◌then◌else◌, ltb, leb, arith, tests,
}

-- The sign of a comparison.
pub data Sign : Type 0 where
  negative : Sign
  equal : Sign
  positive : Sign

unfoldable pub is_negative : Sign → Bool
is_negative negative = true
is_negative equal = false
is_negative positive = false

unfoldable pub is_positive : Sign → Bool
is_positive negative = false
is_positive equal = false
is_positive positive = true

-- `a - b`
unfoldable pub sign_of : ℕ → ℕ → Sign
sign_of a b = if ltb a b then negative else if ltb b a then positive else equal

pub record Item {ℓ} (T : Type ℓ) : Type ℓ where
  pub priority : ℕ
  pub value : T

unfoldable pub descending {ℓ} : {T : Type ℓ} → Item T → Item T → Sign
unfolding sign_of
descending item₁ item₂ = sign_of item₁.priority item₂.priority

unfoldable pub ascending {ℓ} : {T : Type ℓ} → Item T → Item T → Sign
unfolding sign_of
ascending item₁ item₂ = sign_of item₂.priority item₁.priority

pub record PriorityQueue (T : Type 0) : Type 0 where
  pub memory : ℕ → T
  pub size : ℕ

module _ {T : Type 0} where
  -- `memory[i] = value`
  unfoldable pub store : ℕ → T → (ℕ → T) → ℕ → T
  store i value memory j = if j == i then value else memory j

  unfoldable pub swap : ℕ → ℕ → (ℕ → T) → ℕ → T
  unfolding store
  swap i j memory = store j (memory i) (store i (memory j) memory)

-- `(i - 1) >> 1`
abbrev pub parent : ℕ → ℕ
parent i = (i - 1) / 2

module _ {T : Type 0} (undefined : T) (compare : T → T → Sign) where
  -- The loop of enqueue, with fuel: the index is at most the fuel.
  unfoldable pub rise : ℕ → ℕ → (ℕ → T) → ℕ → T
  unfolding swap is_negative
  rise zero i memory = memory
  rise (suc fuel) i memory =
      let up = rise fuel (parent i) (swap i (parent i) memory) in
      if i == 0
      then memory
      else if is_negative (compare (memory i) (memory (parent i)))
      then memory
      else up

  unfoldable pub enqueue : T → PriorityQueue T → PriorityQueue T
  unfolding rise store
  enqueue item q = record {
    memory = rise q.size q.size (store q.size item q.memory);
    size = q.size + 1;
  }

  unfoldable pub peek : PriorityQueue T → Option T
  peek q = if q.size == 0 then none else some (q.memory 0)

  -- `(right >= size || compare(memory[left], memory[right]) > 0) ? left : right`
  unfoldable pub child_of : ℕ → ℕ → (ℕ → T) → ℕ
  unfolding is_positive
  child_of size i memory =
      let left = i * 2 + 1 in
      let right = left + 1 in
      if leb size right || is_positive (compare (memory left) (memory right)) then left else right

  -- The loop of dequeue, with fuel; `stop` is size >> 1.
  unfoldable pub sink : ℕ → ℕ → ℕ → (ℕ → T) → ℕ → T
  unfolding child_of swap is_positive
  sink zero size i memory = memory
  sink (suc fuel) size i memory =
      let child = child_of size i memory in
      let down = sink fuel size child (swap i child memory) in
      if leb (size / 2) i
      then memory
      else if is_positive (compare (memory i) (memory child))
      then memory
      else down

  -- What remains, and the item that was on top.
  unfoldable pub dequeue : PriorityQueue T → PriorityQueue T × Option T
  unfolding sink store
  dequeue q =
      if q.size == 0
      then (q, none)
      else (let size = q.size - 1 in
          let memory = store size undefined (store 0 (q.memory size) q.memory) in
          (
            record { memory = if size == 0 then memory else sink size size 0 memory; size = size },
            some (q.memory 0),
          ))
