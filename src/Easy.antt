-- ===== src/Easy.antt =====
-- packages/easy-framework/src: the state of applications.
pub mod Account
pub mod Meta
pub mod State
pub mod Controller
pub mod NodeState
pub mod Http
pub mod Item
pub mod Memcached
pub mod Parameters
pub mod TextProtocol
pub mod Transactions
pub mod TextLines
pub mod Counts
