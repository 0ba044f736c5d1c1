-- ===== src/Queue/Order/Dequeue.antt =====
-- packages/priority-queue/src/index.ts: dequeue keeps the order, and gives what comes first.
use uniqys_kit.Prelude.{
  ℕ, zero, suc, ◌+◌, ◌*◌, ◌-◌, ◌/◌, ◌≤◌, ◌<◌, ◌==◌, ◌≡◌, ◌≢◌, ◌⊎◌, inl, inr, refl, some, leb, ◌||◌,
  arith, ==→eq, Bool-cases,
}
use uniqys_kit.Queue.{
  Sign, is_negative, is_positive, PriorityQueue, store, swap, parent, enqueue, child_of, sink,
  dequeue,
}
use uniqys_kit.Queue.Order.{IsComparison, AtLeast, IsHeap, swap-at, enqueue-IsHeap}

module _ {T : Type 0} (undefined : T) (compare : T → T → Sign) (laws : IsComparison compare) where
  -- Only the edges below `i` may be out of order.
  record Sinking (size : ℕ) (memory : ℕ → T) (i : ℕ) : Type 0 where
    edges :
        (c : ℕ)
        → 0 < c
        → c < size
        → parent c ≢ i
        → AtLeast undefined compare laws (memory (parent c)) (memory c)
    bridged :
        (c : ℕ)
        → 0 < c
        → c < size
        → parent c ≡ i
        → 0 < i
        → AtLeast undefined compare laws (memory (parent i)) (memory c)

  -- The child that comes first.
  record IsFirstChild (size : ℕ) (memory : ℕ → T) (i m : ℕ) : Type 0 where
    inside : m < size
    child : (m ≡ i * 2 + 1) ⊎ (m ≡ i * 2 + 2)
    first :
        (c : ℕ)
        → 0 < c
        → c < size
        → parent c ≡ i
        → AtLeast undefined compare laws (memory m) (memory c)

  reflexive : (a : T) → AtLeast undefined compare laws a a
  reflexive a = elim (Bool-cases (is_negative (compare a a))) [
    | inl less ↦ laws.asym a a less
    | inr e ↦ e
  ]

  children : (i c : ℕ) → 0 < c → parent c ≡ i → (c ≡ i * 2 + 1) ⊎ (c ≡ i * 2 + 1 + 1)
  children i c p r = ground arith

  child_of-IsFirstChild :
      (size i : ℕ) (memory : ℕ → T)
      → i < size / 2
      → IsFirstChild size memory i (child_of undefined compare size i memory)
  unfolding child_of
  child_of-IsFirstChild size i memory h =
      let left = memory (i * 2 + 1) in
      let right = memory (i * 2 + 1 + 1) in
      elim (Bool-cases (leb size (i * 2 + 1 + 1) || is_positive (compare left right))) [
        | inl e ↦ rw e (record {
          inside = omega arith;
          child = inl refl;
          first = λ c p q r.
              grind (
                arith,
                children i c p r,
                reflexive left,
                laws.flip left right,
                laws.asym right left,
              );
        })
        | inr e ↦ rw e (record {
          inside = ground arith;
          child = inr (omega arith);
          first = λ c p q r. grind (arith, children i c p r, reflexive right, laws.flip left right);
        })
      ]

  swap-Sinking :
      (size : ℕ) (memory : ℕ → T) (i m : ℕ)
      → Sinking size memory i
      → IsFirstChild size memory i m
      → AtLeast undefined compare laws (memory m) (memory i)
      → Sinking size (swap i m memory) m
  swap-Sinking size memory i m v s above = record {
    edges = λ c p q r.
        grind (
          arith,
          swap-at undefined compare laws i m memory,
          laws.trans,
          v.edges,
          v.bridged,
          s.first,
        );
    bridged = λ c p q r t.
        grind (
          arith,
          swap-at undefined compare laws i m memory,
          laws.trans,
          v.edges,
          v.bridged,
          s.first,
        );
  }

  sink-IsHeap :
      (fuel size i : ℕ) (memory : ℕ → T)
      → size ≤ fuel + i
      → Sinking size memory i
      → IsHeap undefined compare laws size (sink undefined compare fuel size i memory)
  unfolding sink
  sink-IsHeap zero size i memory f v = λ c q r. v.edges c q r (grind arith)
  sink-IsHeap (suc fuel) size i memory f v = elim (Bool-cases (leb (size / 2) i)) [
    | inl low ↦ rw low (λ c q r. v.edges c q r (grind arith))
    | inr high ↦
        let m = child_of undefined compare size i memory in
        let s = child_of-IsFirstChild size i memory (ground arith) in
        elim (Bool-cases (is_positive (compare (memory i) (memory m)))) [
          | inl more ↦
              rw (high, more)
                (λ c p q. grind (arith, v.edges, s.first, laws.flip, laws.asym, laws.trans))
          | inr e ↦
              rw (high, e)
                (sink-IsHeap fuel size m (swap i m memory) (grind (arith, s.child))
                  (swap-Sinking size memory i m v s (rw (laws.flip (memory i) (memory m)) at e)))
        ]
  ]

  -- The last item in the place of the first.
  moved-Sinking :
      (size : ℕ) (memory : ℕ → T)
      → IsHeap undefined compare laws size memory
      → Sinking (size - 1) (store (size - 1) undefined (store 0 (memory (size - 1)) memory)) 0
  unfolding store
  moved-Sinking size memory h = record {
    edges = λ c p q r. ground (arith, h c);
    bridged = λ c p q r t. absurd (omega arith);
  }

  below_top :
      (fuel size i : ℕ) (memory : ℕ → T)
      → IsHeap undefined compare laws size memory
      → i < fuel
      → i < size
      → AtLeast undefined compare laws (memory 0) (memory i)
  below_top zero size i memory h f p = absurd (omega arith)
  below_top (suc fuel) size i memory h f p = elim (Bool-cases (i == 0)) [
    | inl e ↦ rw (==→eq i 0 e) (reflexive (memory 0))
    | inr e ↦
        laws.trans (memory 0) (memory (parent i)) (memory i)
          (below_top fuel size (parent i) memory h (ground arith) (ground arith))
          (h i (ground arith) p)
  ]

  -- The item on top comes first.
  dequeue-first :
      (q : PriorityQueue T) (i : ℕ)
      → IsHeap undefined compare laws q.size q.memory
      → i < q.size
      → ((dequeue undefined compare q).1 ≡ some (q.memory 0))
        × AtLeast undefined compare laws (q.memory 0) (q.memory i)
  unfolding dequeue
  dequeue-first q i h p = (ground arith, below_top (suc i) q.size i q.memory h (omega arith) p)

  -- What remains is in order.
  dequeue-IsHeap :
      (q : PriorityQueue T)
      → IsHeap undefined compare laws q.size q.memory
      → IsHeap undefined compare laws
          (dequeue undefined compare q).0.size
          (dequeue undefined compare q).0.memory
  unfolding dequeue
  dequeue-IsHeap q h = elim (Bool-cases (q.size == 0)) [
    | inl e ↦ rw e h
    | inr e ↦ elim (Bool-cases (q.size - 1 == 0)) [
      | inl last ↦ rw (e, last) (λ c p r. absurd (ground arith))
      | inr more ↦
          rw (e, more)
            (sink-IsHeap (q.size - 1) (q.size - 1) 0 _ (omega arith)
              (moved-Sinking q.size q.memory h))
    ]
  ]

  -- The queues that can come about.
  pub data Reachable : PriorityQueue T → Type 0 where
    start : (memory : ℕ → T) → Reachable (record { memory = memory; size = 0 })
    enqueued :
        (item : T) (q : PriorityQueue T)
        → Reachable q
        → Reachable (enqueue undefined compare item q)
    dequeued : (q : PriorityQueue T) → Reachable q → Reachable (dequeue undefined compare q).0

  Reachable-IsHeap :
      (q : PriorityQueue T) → Reachable q → IsHeap undefined compare laws q.size q.memory
  Reachable-IsHeap q (start memory) = λ c p h. absurd (omega arith)
  Reachable-IsHeap q (enqueued item q' r) =
      enqueue-IsHeap undefined compare laws item q' (Reachable-IsHeap q' r)
  Reachable-IsHeap q (dequeued q' r) = dequeue-IsHeap q' (Reachable-IsHeap q' r)

  -- For a comparison that orders the items, and a queue that is made from an empty one by any calls
  -- of enqueue and dequeue: where it is not empty, dequeue gives the item on top, and no item of
  -- the queue comes before that one.
  pub dequeue-Reachable :
      (q : PriorityQueue T) (i : ℕ)
      → Reachable q
      → i < q.size
      → ((dequeue undefined compare q).1 ≡ some (q.memory 0))
        × AtLeast undefined compare laws (q.memory 0) (q.memory i)
  dequeue-Reachable q i r h = dequeue-first q i (Reachable-IsHeap q r) h
