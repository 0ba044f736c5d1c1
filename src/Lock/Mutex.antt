-- ===== src/Lock/Mutex.antt =====
-- packages/lock/src/index.ts: Mutex
use uniqys_kit.Prelude.{
  ◌≡◌, refl, ap, ◌∙◌, sym, Bool, true, false, List, [], ◌∷◌, ◌++◌, append_assoc, append-nil,
}

pub record Mutex (Task : Type 0) : Type 0 where
  pub locked : Bool
  pub queue : List Task
  -- those started, and those of them that have not unlocked yet
  pub started : List Task
  pub holders : List Task

module _ {Task : Type 0} where
  unfoldable pub new_mutex : Mutex Task
  new_mutex = record { locked = false; queue = []; started = []; holders = [] }

  unfoldable pub lock : Task → Mutex Task → Mutex Task
  lock task s = elim s.locked [
    | true ↦ record s { queue = s.queue ++ (task ∷ []) }
    | false ↦ record s {
      locked = true;
      started = s.started ++ (task ∷ []);
      holders = task ∷ s.holders;
    }
  ]

  -- The queued call of lock, if there is one.
  unfoldable pub run_queued : List Task → Mutex Task → Mutex Task
  unfolding lock
  run_queued [] s = s
  run_queued (task ∷ rest) s = lock task (record s { queue = rest })

  unfoldable pub unlock : Mutex Task → Mutex Task
  unfolding run_queued
  unlock s = run_queued s.queue (record s { locked = false })

  -- What happens to a mutex, with the tasks that asked for it and those that were started, in order:
  -- a task asks for it, or the task that has it unlocks.
  pub data Run : List Task → Mutex Task → Type 0 where
    start : Run [] new_mutex
    asked :
        {requests : List Task} {s : Mutex Task} (task : Task)
        → Run requests s
        → Run (requests ++ (task ∷ [])) (lock task s)
    done :
        {requests : List Task} {s : Mutex Task} (task : Task) (others : List Task)
        → s.holders ≡ task ∷ others
        → Run requests s
        → Run requests (unlock (record s { holders = others }))

  -- One task at most has the mutex, one has it exactly if it is locked, and none waits for a mutex
  -- that is free.
  pub data IsExclusive : Mutex Task → Type 0 where
    free :
        (started : List Task)
        → IsExclusive (record { locked = false; queue = []; started = started; holders = [] })
    held :
        (task : Task) (queue started : List Task)
        → IsExclusive
            (record { locked = true; queue = queue; started = started; holders = task ∷ [] })

  pub lock-IsExclusive : (task : Task) (s : Mutex Task) → IsExclusive s → IsExclusive (lock task s)
  unfolding lock
  lock-IsExclusive task s (free started) = held task [] (started ++ (task ∷ []))
  lock-IsExclusive task s (held holder queue started) = held holder (queue ++ (task ∷ [])) started

  pub unlock-IsExclusive :
      (s : Mutex Task) (task : Task) (others : List Task)
      → s.holders ≡ task ∷ others
      → IsExclusive s
      → IsExclusive (unlock (record s { holders = others }))
  unfolding unlock run_queued lock
  unlock-IsExclusive s task others e (free started) = cc
  unlock-IsExclusive s task [] e (held holder [] started) = free started
  unlock-IsExclusive s task [] e (held holder (next ∷ queue) started) =
      held next queue (started ++ (next ∷ []))
  unlock-IsExclusive s task (other ∷ others) e (held holder queue started) = cc

  -- In every run, one task at most has the mutex, exactly one if it is locked, and tasks wait only
  -- while another task has it.
  pub Run-IsExclusive : {requests : List Task} {s : Mutex Task} → Run requests s → IsExclusive s
  unfolding new_mutex
  Run-IsExclusive start = free []
  Run-IsExclusive (asked task r) = lock-IsExclusive task _ (Run-IsExclusive r)
  Run-IsExclusive (done task others e r) = unlock-IsExclusive _ task others e (Run-IsExclusive r)

  pub lock-order :
      (task : Task) (s : Mutex Task)
      → IsExclusive s
      → (lock task s).started ++ (lock task s).queue ≡ (s.started ++ s.queue) ++ (task ∷ [])
  unfolding lock
  lock-order task s (free started) = simp (append_assoc, append-nil)
  lock-order task s (held holder queue started) = sym (append_assoc started queue (task ∷ []))

  run_queued-order :
      (queue : List Task) (s : Mutex Task)
      → s.queue ≡ queue
      → s.locked ≡ false
      → (run_queued queue s).started ++ (run_queued queue s).queue ≡ s.started ++ queue
  unfolding run_queued lock
  run_queued-order [] s e f = ap (λ q. s.started ++ q) e
  run_queued-order (task ∷ rest) s e f = rw (f) (append_assoc s.started (task ∷ []) rest)

  pub unlock-order :
      (s : Mutex Task) → (unlock s).started ++ (unlock s).queue ≡ s.started ++ s.queue
  unfolding unlock
  unlock-order s = run_queued-order s.queue (record s { locked = false }) refl refl

  -- In every run, the tasks that have been started are the first of those that asked, in the order
  -- in which they asked, and the others wait in that order: none is lost or overtaken.
  pub Run-order :
      {requests : List Task} {s : Mutex Task} → Run requests s → s.started ++ s.queue ≡ requests
  unfolding new_mutex
  Run-order start = refl
  Run-order (asked task r) =
      lock-order task _ (Run-IsExclusive r) ∙ ap (λ l. l ++ (task ∷ [])) (Run-order r)
  Run-order (done {s = s} task others e r) =
      unlock-order (record s { holders = others }) ∙ Run-order r
