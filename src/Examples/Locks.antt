-- ===== src/Examples/Locks.antt =====
-- Locks that tasks, which are numbers here, ask for.
use uniqys_kit.Prelude.{ℕ, ◌≡◌, refl, arith, List, [], ◌∷◌, ◌++◌}
use uniqys_kit.Lock.Mutex
use uniqys_kit.Lock.Mutex.{Run, start, asked, new_mutex, lock, run_queued, unlock, Run-order}
use uniqys_kit.Lock.Progress.{here, asks, unlocks, Continues-started}
use uniqys_kit.Lock.ReadWrite
use uniqys_kit.Lock.ReadWrite.{Reachable, ask_read, ask_write, new_lock, read_lock, write_lock}
use uniqys_kit.Lock.Exclusion
use uniqys_kit.Lock.Exclusion.{Reachable-IsExclusive}

abbrev first : ℕ
first = 1

abbrev second : ℕ
second = 2

abbrev both : List ℕ
both = first ∷ second ∷ []

two_asked : Run both (lock second (lock first new_mutex))
two_asked = asked second (asked first start)

abbrev held_by_first : Mutex.Mutex ℕ
held_by_first = lock second (lock first new_mutex)

Reachable-IsExclusive_example :
    Exclusion.IsExclusive (read_lock first (write_lock second (read_lock first new_lock)))
Reachable-IsExclusive_example =
    Reachable-IsExclusive (ask_read first (ask_write second (ask_read first ReadWrite.start)))

-- The first task unlocks, after a third one has asked.
abbrev third : ℕ
third = 3

abbrev freed : Mutex.Mutex ℕ
freed = unlock (record (lock third held_by_first) { holders = [] })

Continues-started_example :
    ((holder : ℕ) × (held_by_first.holders ≡ holder ∷ []))
    × ((more : List ℕ) × (freed.started ≡ held_by_first.started ++ [] ++ second ∷ more))
unfolding new_mutex lock
Continues-started_example =
    Continues-started both held_by_first freed 1 [] [] second two_asked refl
      (unlocks first [] refl (asks third here)) (omega arith)
