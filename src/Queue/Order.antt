-- ===== src/Queue/Order.antt =====
-- packages/priority-queue/src/index.ts: the items stand in the order of a heap, the first on top.
pub mod Dequeue
use uniqys_kit.Prelude.{
  ℕ, zero, suc, ◌+◌, ◌*◌, ◌-◌, ◌/◌, ◌≤◌, ◌<◌, ◌==◌, ◌≡◌, ◌≢◌, ◌⊎◌, inl, inr, refl, true, false,
  some, if◌then◌else◌, leb, ◌||◌, arith, ==→eq, Bool-cases,
}
use uniqys_kit.Queue.{
  Sign, is_negative, is_positive, descending, sign_of, PriorityQueue, store, swap, parent, rise,
  enqueue, child_of, sink, dequeue,
}

-- What a comparison has to keep: its signs are opposite for exchanged items, and it orders them.
pub record IsComparison {T : Type 0} (compare : T → T → Sign) : Type 0 where
  pub flip : (a b : T) → is_positive (compare a b) ≡ is_negative (compare b a)
  pub asym : (a b : T) → is_negative (compare a b) ≡ true → is_negative (compare b a) ≡ false
  pub trans :
      (a b c : T)
      → is_negative (compare a b) ≡ false
      → is_negative (compare b c) ≡ false
      → is_negative (compare a c) ≡ false

pub descending-IsComparison : {T : Type 0} → IsComparison (descending {T = T})
unfolding descending sign_of is_negative is_positive
descending-IsComparison = record {
  flip = λ a b. ground (arith);
  asym = λ a b h. ground (arith);
  trans = λ a b c h k. ground (arith);
}

module _ {T : Type 0} (undefined : T) (compare : T → T → Sign) (laws : IsComparison compare) where
  -- `a` is not to come after `b`.
  abbrev pub AtLeast : T → T → Type 0
  AtLeast a b = is_negative (compare a b) ≡ false

  abbrev pub IsHeap : ℕ → (ℕ → T) → Type 0
  IsHeap size memory = (c : ℕ) → 0 < c → c < size → AtLeast (memory (parent c)) (memory c)

  pub swap-at :
      (i j : ℕ) (memory : ℕ → T) (c : ℕ)
      → swap i j memory c ≡ (if c == j then memory i else if c == i then memory j else memory c)
  unfolding swap store
  swap-at i j memory c = refl

  -- Only the edge above `i` may be out of order.
  record Rising (size : ℕ) (memory : ℕ → T) (i : ℕ) : Type 0 where
    edges : (c : ℕ) → 0 < c → c < size → c ≢ i → AtLeast (memory (parent c)) (memory c)
    bridged :
        (c : ℕ) → 0 < c → c < size → parent c ≡ i → 0 < i → AtLeast (memory (parent i)) (memory c)

  swap-Rising :
      (size : ℕ) (memory : ℕ → T) (i : ℕ)
      → i < size
      → 0 < i
      → Rising size memory i
      → AtLeast (memory i) (memory (parent i))
      → Rising size (swap i (parent i) memory) (parent i)
  swap-Rising size memory i h p v above = record {
    edges = λ c q r s. grind (arith, swap-at i (parent i) memory, laws.trans, v.edges, v.bridged);
    bridged =
        λ c q r s t. grind (arith, swap-at i (parent i) memory, laws.trans, v.edges, v.bridged);
  }

  rise-IsHeap :
      (fuel size i : ℕ) (memory : ℕ → T)
      → i ≤ fuel
      → i < size
      → Rising size memory i
      → IsHeap size (rise undefined compare fuel i memory)
  unfolding rise
  rise-IsHeap zero size i memory f h v = λ c q r. v.edges c q r (omega arith)
  rise-IsHeap (suc fuel) size i memory f h v = elim (Bool-cases (i == 0)) [
    | inl top ↦ rw top (λ c q r. v.edges c q r (ground arith))
    | inr lower ↦ elim (Bool-cases (is_negative (compare (memory i) (memory (parent i))))) [
      | inl less ↦ rw (lower, less) (λ c q r. grind (arith, v.edges, laws.asym))
      | inr more ↦
          rw (lower, more)
            (rise-IsHeap fuel size (parent i) (swap i (parent i) memory) (ground arith)
              (ground arith) (swap-Rising size memory i h (ground arith) v more))
    ]
  ]

  -- Enqueue keeps the order.
  pub enqueue-IsHeap :
      (item : T) (q : PriorityQueue T)
      → IsHeap q.size q.memory
      → IsHeap (enqueue undefined compare item q).size (enqueue undefined compare item q).memory
  unfolding enqueue store
  enqueue-IsHeap item q h =
      rise-IsHeap q.size (q.size + 1) q.size (store q.size item q.memory) (omega arith)
        (omega arith)
        (record {
          edges = λ c p r s. ground (arith, h c);
          bridged = λ c p r s t. absurd (omega arith);
        })
