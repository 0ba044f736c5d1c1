-- ===== src/Protocol.antt =====
-- packages/protocol/src: the messages between nodes, and the exchange of requests and responses.
pub mod Messages
pub mod Wire
pub mod Exchange
