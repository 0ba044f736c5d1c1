-- ===== src/Types.antt =====
-- The value types of packages/types/src: fixed-size bytes, Optional and Either.
pub mod FixedBytes
pub mod Optional
pub mod Either
pub mod ByteMap
