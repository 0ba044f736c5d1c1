-- ===== src/Blockchain.antt =====
-- The data and the rules of packages/blockchain/src: trees, transactions, validators, votes, blocks.
pub mod MerkleTree
pub mod Transaction
pub mod Validators
pub mod Votes
pub mod Blocks
pub mod Messages
pub mod BlockStore
pub mod Chain
