-- ===== src/Trie.antt =====
-- packages/merkle-patricia-trie: the trie and its proofs.
pub mod Proof
pub mod Keys
pub mod Node
pub mod Hashing
pub mod Normal
pub mod Store
pub mod Tree
