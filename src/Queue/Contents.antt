-- ===== src/Queue/Contents.antt =====
-- packages/priority-queue/src/index.ts: no item is lost, or there twice. What a queue holds is
-- measured by the sum of any weight over its items.
use uniqys_kit.Prelude.{
  ℕ, zero, suc, ◌+◌, ◌/◌, ◌≤◌, ◌<◌, ◌==◌, ==→eq, ◌≡◌, refl, ◌∙◌, leb, arith, Bool-cases, inl, inr,
}
use uniqys_kit.Queue.{
  Sign, is_positive, PriorityQueue, store, swap, parent, rise, enqueue, child_of, sink, dequeue,
}

abbrev pub total : {T : Type 0} → (T → ℕ) → ℕ → (ℕ → T) → ℕ
total weight zero memory = 0
total weight (suc n) memory = total weight n memory + weight (memory n)

module _ {T : Type 0} (weight : T → ℕ) where
  total-store_outside :
      (n i : ℕ) (value : T) (memory : ℕ → T)
      → n ≤ i
      → total weight n (store i value memory) ≡ total weight n memory
  unfolding store
  total-store_outside zero i value memory h = refl
  total-store_outside (suc n) i value memory h =
      ground (arith, total-store_outside n i value memory (omega arith))

  -- Storing a value trades its weight for that of the old one.
  total-store :
      (n i : ℕ) (value : T) (memory : ℕ → T)
      → i < n
      → total weight n (store i value memory) + weight (memory i)
        ≡ total weight n memory + weight value
  unfolding store
  total-store zero i value memory h = absurd (omega arith)
  total-store (suc n) i value memory h = elim (Bool-cases (n == i)) [
    | inl e ↦ rw e (grind (arith, ==→eq n i e, total-store_outside n i value memory (ground arith)))
    | inr e ↦ rw e (ground (arith, total-store n i value memory (ground arith)))
  ]

  stored : (i j : ℕ) (memory : ℕ → T) → store i (memory j) memory j ≡ memory j
  unfolding store
  stored i j memory = ground arith

  total-swap :
      (n i j : ℕ) (memory : ℕ → T)
      → i < n
      → j < n
      → total weight n (swap i j memory) ≡ total weight n memory
  unfolding swap
  total-swap n i j memory hi hj = grind (
    arith,
    total-store n j (memory i) (store i (memory j) memory) hj,
    total-store n i (memory j) memory hi,
    stored i j memory,
  )

  module _ (undefined : T) (compare : T → T → Sign) where
    total-rise :
        (fuel n i : ℕ) (memory : ℕ → T)
        → i < n
        → total weight n (rise undefined compare fuel i memory) ≡ total weight n memory
    unfolding rise
    total-rise zero n i memory h = refl
    total-rise (suc fuel) n i memory h = ground (
      arith,
      total-rise fuel n (parent i) (swap i (parent i) memory) (omega arith),
      total-swap n i (parent i) memory h (omega arith),
    )

    -- One item more.
    pub total-enqueue :
        (item : T) (q : PriorityQueue T)
        → total weight
            (enqueue undefined compare item q).size
            (enqueue undefined compare item q).memory
          ≡ total weight q.size q.memory + weight item
    unfolding enqueue
    total-enqueue item q = grind (
      arith,
      total-store_outside q.size q.size item q.memory (omega arith),
      total-rise q.size (suc q.size) q.size (store q.size item q.memory) (omega arith),
      total-store (suc q.size) q.size item q.memory (omega arith),
    )

    child_of-inside :
        (size i : ℕ) (memory : ℕ → T)
        → i < size / 2
        → child_of undefined compare size i memory < size
    unfolding child_of
    child_of-inside size i memory h = ground arith

    total-sink :
        (fuel size i : ℕ) (memory : ℕ → T)
        → total weight size (sink undefined compare fuel size i memory) ≡ total weight size memory
    unfolding sink
    total-sink zero size i memory = refl
    total-sink (suc fuel) size i memory =
        let m = child_of undefined compare size i memory in
        elim (Bool-cases (leb (size / 2) i)) [
          | inl low ↦ rw low refl
          | inr high ↦
              let inside = child_of-inside size i memory (ground arith) in
              elim (Bool-cases (is_positive (compare (memory i) (memory m)))) [
                | inl more ↦ rw (high, more) refl
                | inr less ↦
                    rw (high, less)
                      (total-sink fuel size m (swap i m memory)
                        ∙ total-swap size i m memory (ground arith) inside)
              ]
        ]

    -- The last item in the place of the first, and its own place empty.
    total-moved :
        (last : ℕ) (memory : ℕ → T)
        → total weight last (store last undefined (store 0 (memory last) memory))
            + weight (memory 0)
          ≡ total weight (suc last) memory
    total-moved zero memory = omega arith
    total-moved (suc last) memory =
        let n = suc last in
        omega (
          arith,
          total-store_outside n n undefined (store 0 (memory n) memory) (omega arith),
          total-store n 0 (memory n) memory (omega arith),
        )

    -- Where a queue is not empty, the items that remain after dequeue are those there were, but for
    -- the one on top: for any weight of items, the sum over the rest and the weight of the top are
    -- the sum over the queue.
    pub total-dequeue :
        (size : ℕ) (memory : ℕ → T)
        → total weight
              (dequeue undefined compare (record { memory = memory; size = suc size })).0.size
              (dequeue undefined compare (record { memory = memory; size = suc size })).0.memory
            + weight (memory 0)
          ≡ total weight (suc size) memory
    unfolding dequeue
    total-dequeue zero memory = total-moved zero memory
    total-dequeue (suc last) memory =
        let size = suc last in
        grind (
          arith,
          total-moved size memory,
          total-sink size size 0 (store size undefined (store 0 (memory size) memory)),
        )
