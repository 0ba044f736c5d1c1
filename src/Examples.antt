-- ===== src/Examples.antt =====
-- Concrete inputs for the theorems, and runs of the definitions on them.
pub mod Toy
pub mod Wire
pub mod Merkle
pub mod Votes
pub mod Stores
pub mod Locks
pub mod Engine
pub mod Queues
pub mod NodeStates
pub mod Tries
pub mod Sync
pub mod Proposals
pub mod Duties
pub mod Texts
pub mod Controller
pub mod Nodes
pub mod Exchange
