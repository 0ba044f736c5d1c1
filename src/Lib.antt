-- ===== src/Lib.antt =====
-- UniqysKit: a blockchain node with Byzantine agreement, and a framework for applications on it.
--
-- The parts, under packages/ of the repository, and the files that model them:
--   serialize              Serialize: BufferWriter, BufferReader, integers, lists
--   types                  Types: fixed-size bytes, Optional, Either, and the Map of a hex string
--   signature              Signature: Hash, Address, Signature, KeyPair over a cryptography interface
--   blockchain             Blockchain: the Merkle tree, transactions, validators, votes, blocks,
--                          messages, the block store and the chain
--   chain-core             ChainCore: the consensus engine's vote set, state and steps, the pool of
--                          transactions, the executor, the synchronizer, the set of remote
--                          nodes, the responder, the blocks proposed, the handlers of the
--                          engine and the duties of a node of its own
--   protocol               Protocol: the messages between nodes, their wire format, and requests with
--                          their responses
--   priority-queue         Queue: the binary heap
--   merkle-patricia-trie   Trie: proofs, keys, nodes, their hashes, normal form and wire format, and
--                          the trie on a store
--   lock                   Lock: Mutex and ReadWriteLock
--   store                  Store: the interface, InMemoryStore and Namespace
--   easy-framework         Easy: accounts, the memcached operations of applications, the state that the
--                          chain is told, the memcached text protocol, the controller, and
--                          easy-types: HTTP messages and signed transactions
-- Examples holds the witnesses of the results and runs of the definitions.
--
-- How the parts interact: every stored or sent value goes through Serialize; the hashes of blocks,
-- votes and validators are digests of serialized bytes; Blockchain.Votes checks signatures against a
-- validator set; ChainCore counts the votes that Blockchain.Messages carries, and ChainCore.Engine
-- decides on those counts what to vote next. Blockchain.BlockStore and Easy.Memcached are clients of
-- Store.Interface, and Store.InMemory and Store.Namespace fill it. The engine's handlers record
-- messages in the states of its rounds, and its duties send messages that they have taken themselves
-- first. Easy.Controller executes the transactions of a block over the record of what it uses of the
-- state, which Easy.NodeState fills with the trie and the entries of one store. Protocol.Exchange
-- answers requests by what a handler returns, and a fetch waits for one response at a time. What runs
-- under a lock of Lock is one step of the other parts.
--
-- Conventions. A Buffer is a list of numbers, and a Hash, Address or Signature is its buffer. Code that
-- may throw returns a Result; a method that throws after it has written returns the state too. A
-- Serializer takes the writer to its next state, a Deserializer the reader. JavaScript numbers are the
-- native natural numbers, and Int64's are integers: none of the code that is modelled needs fractions,
-- and numbers above 2^53 are outside what it handles. The packages keccak and secp256k1 are the
-- record Signature.Crypto, whose laws are the sizes of their results and that a signature recovers the
-- key of its signer.
--
-- Fuel. BufferWriter's doubling loop has as many rounds as bytes are needed, splitPoint's as many as
-- there are items, and the recursion of the Merkle root has one more than there are items; lemmas show
-- that each is enough. Descending in a trie has as many rounds as the key has alphabets and one more,
-- and set one more still, for a split. The loops of the queue have one round for each item, and the
-- rounds of catchUpHeaders are an argument. A chunk of the text protocol has two rounds for each of
-- its bytes and two more.
--
-- Not modelled: the timers of the engine and its start and stop, the workers that fetch bodies, the
-- iterators of the trie; LevelDownStore, the network, the command line, the HTTP servers with the
-- packing of what they are sent, configuration files, contracts and samples, which are input and
-- output or calls of third-party packages.
pub mod Prelude
pub mod Serialize
pub mod Types
pub mod Signature
pub mod Blockchain
pub mod Protocol
pub mod Queue
pub mod ChainCore
pub mod Lock
pub mod Store
pub mod Trie
pub mod Easy
pub mod Examples
