-- ===== src/Signature.antt =====
-- packages/signature/src: Hash, Address, Signature and KeyPair. An object is its buffer. The packages
-- keccak and secp256k1 are the parameter `Crypto`.
pub mod Keys
pub mod Recovery
use uniqys_kit.Prelude.{ℕ, ◌<◌, ◌≡◌, Option, some, length}
use uniqys_kit.Types.FixedBytes.{Bytes}

-- What the code relies on: a digest has 32 bytes; a public key is 65 bytes, of which the first is a
-- tag; and the key recovered from a signature of a digest is that of the signer.
pub record Crypto : Type 0 where
  pub keccak256 : Bytes → Bytes
  pub length-keccak256 : (text : Bytes) → length (keccak256 text) ≡ 32
  -- sign: the signature and the recovery flag, recover: none where the library throws
  pub sign : Bytes → Bytes → Bytes × ℕ
  pub recover : Bytes → Bytes → ℕ → Option Bytes
  pub public_key_create : Bytes → Bytes
  pub length-public_key : (key : Bytes) → length (public_key_create key) ≡ 65
  pub length-sign : (digest key : Bytes) → length (sign digest key).0 ≡ 64
  pub recovery-lt : (digest key : Bytes) → (sign digest key).1 < 2
  pub recover-sign :
      (digest key : Bytes)
      → recover digest (sign digest key).0 (sign digest key).1 ≡ some (public_key_create key)

abbrev pub Hash : Type 0
Hash = Bytes

abbrev pub Address : Type 0
Address = Bytes

abbrev pub Signature : Type 0
Signature = Bytes
