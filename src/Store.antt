-- ===== src/Store.antt =====
-- packages/store/src/index.ts
pub mod Interface
pub mod InMemory
pub mod Namespace
