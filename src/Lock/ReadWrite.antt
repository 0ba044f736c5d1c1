-- ===== src/Lock/ReadWrite.antt =====
-- packages/lock/src/index.ts: LockState, ReadLock, WriteLock and ReadWriteLock
use uniqys_kit.Prelude.{
  ℕ, ◌+◌, ◌-◌, ◌≡◌, Bool, true, false, List, [], ◌∷◌, ◌++◌, ◌||◌, ltb, if◌then◌else◌, length,
}

pub record LockState (Task : Type 0) : Type 0 where
  pub readers : ℕ
  pub locked : Bool
  pub write_queue : List Task
  pub read_queue : List Task
  -- the tasks that were started and have not unlocked yet
  pub reading : List Task
  pub writing : List Task

module _ {Task : Type 0} where
  unfoldable pub new_lock : LockState Task
  new_lock = record {
    readers = 0;
    locked = false;
    write_queue = [];
    read_queue = [];
    reading = [];
    writing = [];
  }

  unfoldable pub read_lock : Task → LockState Task → LockState Task
  read_lock task s =
      if s.locked || ltb 0 (length s.write_queue)
      then record s { read_queue = s.read_queue ++ (task ∷ []) }
      else record s { readers = s.readers + 1; reading = task ∷ s.reading }

  unfoldable pub write_lock : Task → LockState Task → LockState Task
  write_lock task s =
      if s.locked || ltb 0 s.readers
      then record s { write_queue = s.write_queue ++ (task ∷ []) }
      else record s { locked = true; writing = task ∷ s.writing }

  -- The writer of ReadLock._unlock, if there is one.
  unfoldable pub run_writer : List Task → LockState Task → LockState Task
  unfolding write_lock
  run_writer [] s = s
  run_writer (writer ∷ rest) s = write_lock writer (record s { write_queue = rest })

  unfoldable pub read_unlock : LockState Task → LockState Task
  unfolding run_writer
  read_unlock s =
      let t = record s { readers = s.readers - 1 } in
      if ltb 0 t.readers then t else run_writer t.write_queue t

  unfoldable pub run_readers : List Task → LockState Task → LockState Task
  unfolding read_lock
  run_readers [] s = s
  run_readers (reader ∷ rest) s = run_readers rest (read_lock reader s)

  unfoldable pub run_waiting : List Task → LockState Task → LockState Task
  unfolding write_lock run_readers
  run_waiting [] s = run_readers s.read_queue (record s { read_queue = [] })
  run_waiting (writer ∷ rest) s = write_lock writer (record s { write_queue = rest })

  unfoldable pub write_unlock : LockState Task → LockState Task
  unfolding run_waiting
  write_unlock s = run_waiting s.write_queue (record s { locked = false })

  -- A task asks for one of the locks, or a task that has one unlocks it.
  pub data Reachable : LockState Task → Type 0 where
    start : Reachable new_lock
    ask_read : {s : LockState Task} (task : Task) → Reachable s → Reachable (read_lock task s)
    ask_write : {s : LockState Task} (task : Task) → Reachable s → Reachable (write_lock task s)
    -- any of the readers
    end_read :
        {s : LockState Task} (task : Task) (before after : List Task)
        → s.reading ≡ before ++ (task ∷ after)
        → Reachable s
        → Reachable (read_unlock (record s { reading = before ++ after }))
    end_write :
        {s : LockState Task} (task : Task) (others : List Task)
        → s.writing ≡ task ∷ others
        → Reachable s
        → Reachable (write_unlock (record s { writing = others }))
