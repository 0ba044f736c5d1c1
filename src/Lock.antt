-- ===== src/Lock.antt =====
-- packages/lock/src/index.ts. A task is known by a value, and what a lock has granted, the tasks for
-- which it has called process.nextTick, is part of its state: nothing in the source keeps it.
pub mod Mutex
pub mod ReadWrite
pub mod Exclusion
pub mod Progress
