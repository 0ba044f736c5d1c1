-- ===== src/Serialize.antt =====
-- The buffers and serializers of packages/serialize/src/index.ts.
pub mod Buffer
pub mod Integers
pub mod UInt8
pub mod UInt32
pub mod UInt64
pub mod Int64
pub mod Lists
pub mod SizedBuffer
pub mod Codec
