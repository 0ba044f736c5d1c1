-- ===== src/Lock/Exclusion.antt =====
-- packages/lock/src/index.ts: what holds of a ReadWriteLock whatever its tasks do.
use uniqys_kit.Prelude.{
  ℕ, zero, suc, ◌+◌, ◌-◌, ◌≡◌, refl, true, false, List, [], ◌∷◌, ◌++◌, length, length-append, arith,
  lt→ltb, ap,
}
use uniqys_kit.Lock.ReadWrite.{
  LockState, Reachable, start, ask_read, ask_write, end_read, end_write, new_lock, read_lock,
  write_lock, run_writer, read_unlock, run_readers, run_waiting, write_unlock,
}

module _ {Task : Type 0} where
  -- Either no task writes, each reader is counted, and there is no queue without a reader; or one
  -- task writes and none reads.
  pub data IsExclusive : LockState Task → Type 0 where
    shared :
        (readers : ℕ) (write_queue read_queue reading : List Task)
        → length reading ≡ readers
        → (readers ≡ 0 → length write_queue ≡ 0)
        → (length write_queue ≡ 0 → length read_queue ≡ 0)
        → IsExclusive (record {
          readers = readers;
          locked = false;
          write_queue = write_queue;
          read_queue = read_queue;
          reading = reading;
          writing = [];
        })
    alone :
        (task : Task) (write_queue read_queue : List Task)
        → IsExclusive (record {
          readers = 0;
          locked = true;
          write_queue = write_queue;
          read_queue = read_queue;
          reading = [];
          writing = task ∷ [];
        })

  read_lock-IsExclusive :
      (task : Task) (s : LockState Task) → IsExclusive s → IsExclusive (read_lock task s)
  unfolding read_lock
  read_lock-IsExclusive task s (shared readers [] rq reading l w r) =
      shared (readers + 1) [] rq (task ∷ reading) (omega (arith, l)) (λ e. refl) r
  read_lock-IsExclusive task s (shared readers (x ∷ wq) rq reading l w r) =
      rw (lt→ltb 0 (suc (length wq)) (omega arith))
        (shared readers (x ∷ wq) (rq ++ (task ∷ [])) reading l w (λ e. absurd (omega (arith, e))))
  read_lock-IsExclusive task s (alone writer wq rq) = alone writer wq (rq ++ (task ∷ []))

  write_lock-IsExclusive :
      (task : Task) (s : LockState Task) → IsExclusive s → IsExclusive (write_lock task s)
  unfolding write_lock
  write_lock-IsExclusive task s (shared zero wq rq [] l w r) = alone task wq rq
  write_lock-IsExclusive task s (shared zero wq rq (x ∷ reading) l w r) = absurd (omega (arith, l))
  write_lock-IsExclusive task s (shared (suc readers) wq rq reading l w r) =
      rw (lt→ltb 0 (suc readers) (omega arith)) (
        shared (suc readers) (wq ++ (task ∷ [])) rq reading l (λ e. absurd (omega (arith, e)))
          (λ e. absurd (omega (arith, e, length-append wq (task ∷ [])))))
  write_lock-IsExclusive task s (alone writer wq rq) = alone writer (wq ++ (task ∷ [])) rq

  run_writer-IsExclusive :
      (readers : ℕ) (wq rq reading : List Task)
      → length reading ≡ readers
      → (length wq ≡ 0 → length rq ≡ 0)
      → readers ≡ 0
      → IsExclusive (
          run_writer wq (record {
            readers = readers;
            locked = false;
            write_queue = wq;
            read_queue = rq;
            reading = reading;
            writing = [];
          }))
  unfolding run_writer write_lock
  run_writer-IsExclusive zero [] rq reading l r z = shared 0 [] rq reading l (λ e. refl) r
  run_writer-IsExclusive zero (writer ∷ wq) rq [] l r z = alone writer wq rq
  run_writer-IsExclusive zero (writer ∷ wq) rq (x ∷ reading) l r z = absurd (omega (arith, l))
  run_writer-IsExclusive (suc n) wq rq reading l r z = absurd (omega (arith, z))

  run_readers-IsExclusive :
      (waiting : List Task) (s : LockState Task)
      → IsExclusive s
      → IsExclusive (run_readers waiting s)
  unfolding run_readers
  run_readers-IsExclusive [] s h = h
  run_readers-IsExclusive (reader ∷ waiting) s h =
      run_readers-IsExclusive waiting _ (read_lock-IsExclusive reader s h)

  run_waiting-IsExclusive :
      (wq rq : List Task)
      → IsExclusive (
          run_waiting wq (record {
            readers = 0;
            locked = false;
            write_queue = wq;
            read_queue = rq;
            reading = [];
            writing = [];
          }))
  unfolding run_waiting write_lock
  run_waiting-IsExclusive [] rq =
      run_readers-IsExclusive rq _ (shared 0 [] [] [] refl (λ e. refl) (λ e. refl))
  run_waiting-IsExclusive (writer ∷ wq) rq = alone writer wq rq

  length_without :
      (task : Task) (before after : List Task)
      → length (before ++ (task ∷ after)) ≡ suc (length (before ++ after))
  length_without task before after =
      omega (arith, length-append before (task ∷ after), length-append before after)

  end_read-IsExclusive :
      (s : LockState Task) (task : Task) (before after : List Task)
      → s.reading ≡ before ++ (task ∷ after)
      → IsExclusive s
      → IsExclusive (read_unlock (record s { reading = before ++ after }))
  unfolding read_unlock
  end_read-IsExclusive s task before after e (shared zero wq rq reading l w r) =
      absurd (omega (arith, ap length e, l, length_without task before after))
  end_read-IsExclusive s task before after e (shared (suc zero) wq rq reading l w r) =
      run_writer-IsExclusive 0 wq rq (before ++ after)
        (omega (arith, ap length e, l, length_without task before after)) r refl
  end_read-IsExclusive s task before after e (shared (suc (suc n)) wq rq reading l w r) =
      rw (lt→ltb 0 (suc (suc n) - 1) (omega arith)) (
        shared (suc (suc n) - 1) wq rq (before ++ after)
          (omega (arith, ap length e, l, length_without task before after))
          (λ z. absurd (omega (arith, z))) r)
  end_read-IsExclusive s task before after e (alone writer wq rq) =
      absurd (omega (arith, ap length e, length_without task before after))

  end_write-IsExclusive :
      (s : LockState Task) (task : Task) (others : List Task)
      → s.writing ≡ task ∷ others
      → IsExclusive s
      → IsExclusive (write_unlock (record s { writing = others }))
  unfolding write_unlock
  end_write-IsExclusive s task others e (shared readers wq rq reading l w r) = cc
  end_write-IsExclusive s task [] e (alone writer wq rq) = run_waiting-IsExclusive wq rq
  end_write-IsExclusive s task (x ∷ others) e (alone writer wq rq) = cc

  -- In every state that tasks can bring about, either one task writes and none reads, or none
  -- writes and the readers are counted. Writers wait only while a task reads or writes, and readers
  -- only while a task writes or a writer waits.
  pub Reachable-IsExclusive : {s : LockState Task} → Reachable s → IsExclusive s
  unfolding new_lock
  Reachable-IsExclusive start = shared 0 [] [] [] refl (λ e. refl) (λ e. refl)
  Reachable-IsExclusive (ask_read task r) = read_lock-IsExclusive task _ (Reachable-IsExclusive r)
  Reachable-IsExclusive (ask_write task r) = write_lock-IsExclusive task _ (Reachable-IsExclusive r)
  Reachable-IsExclusive (end_read task before after e r) =
      end_read-IsExclusive _ task before after e (Reachable-IsExclusive r)
  Reachable-IsExclusive (end_write task others e r) =
      end_write-IsExclusive _ task others e (Reachable-IsExclusive r)
