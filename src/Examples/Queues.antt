-- ===== src/Examples/Queues.antt =====
-- A queue of numbers by their priority.
use uniqys_kit.Prelude.{ℕ, zero, suc, ◌≡◌, refl, some, arith}
use uniqys_kit.Queue.{
  Item, PriorityQueue, enqueue, dequeue, descending, store, swap, rise, sink, child_of, sign_of,
  is_negative, is_positive,
}
use uniqys_kit.Queue.Order.{AtLeast, descending-IsComparison}
use uniqys_kit.Queue.Order.Dequeue.{start, enqueued, Reachable, dequeue-Reachable}

abbrev nothing : Item ℕ
nothing = record { priority = 0; value = 0 }

abbrev urgent : Item ℕ
urgent = record { priority = 9; value = 1 }

abbrev later : Item ℕ
later = record { priority = 5; value = 2 }

-- Two items, the first on top.
abbrev items : ℕ → Item ℕ
items zero = urgent
items (suc zero) = later
items (suc (suc n)) = nothing

abbrev two_items : PriorityQueue (Item ℕ)
two_items = record { memory = items; size = 2 }

abbrev middle : Item ℕ
middle = record { priority = 7; value = 3 }

-- The item between the two comes out between them.
second_out :
    (dequeue nothing descending
      (dequeue nothing descending (enqueue nothing descending middle two_items)).0).1
    ≡ some middle
unfolding dequeue enqueue descending sign_of is_negative is_positive rise sink child_of swap store
second_out = refl

abbrev empty : PriorityQueue (Item ℕ)
empty = record { memory = λ i. nothing; size = 0 }

abbrev three_items : PriorityQueue (Item ℕ)
three_items =
    enqueue nothing descending middle
      (enqueue nothing descending urgent (enqueue nothing descending later empty))

three_items-Reachable : Reachable nothing descending descending-IsComparison three_items
three_items-Reachable =
    enqueued middle _ (enqueued urgent _ (enqueued later _ (start (λ i. nothing))))

dequeue-Reachable_example :
    ((dequeue nothing descending three_items).1 ≡ some urgent)
    × AtLeast nothing descending descending-IsComparison urgent (three_items.memory 2)
unfolding enqueue descending sign_of is_negative rise swap store
dequeue-Reachable_example =
    dequeue-Reachable nothing descending descending-IsComparison three_items 2 three_items-Reachable
      (omega arith)
