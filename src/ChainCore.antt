-- ===== src/ChainCore.antt =====
-- The consensus engine of packages/chain-core/src.
pub mod VoteSet
pub mod State
pub mod Engine
pub mod Pool
pub mod Duties
pub mod Executor
pub mod Handlers
pub mod Histories
pub mod Nodes
pub mod Proposals
pub mod Responder
pub mod Sync
