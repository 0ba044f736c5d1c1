-- ===== src/Signature/Recovery.antt =====
-- packages/signature/src/cryptography.ts: signatures give back their signer and their bytes.
use uniqys_kit.Prelude.{
  ℕ, ◌+◌, ◌-◌, ◌%◌, ◌≡◌, ◌<◌, refl, ap, ◌∙◌, some, List, [], ◌∷◌, ◌++◌, arith, ok, length, take,
  drop, get_elem?, length-append, length-drop, take-append, length-take,
}
use uniqys_kit.Serialize.Buffer.{consume, new_writer}
use uniqys_kit.Serialize.Buffer.Bytes.{Holds-new, contents-Holds}
use uniqys_kit.Serialize.Codec
use uniqys_kit.Serialize.Codec.{Fits, Writes-append, consume_lem}
use uniqys_kit.Serialize.Codec.Numbers.{Fits-uint8, bytes-uint8}
use uniqys_kit.Serialize.UInt8
use uniqys_kit.Types.FixedBytes
use uniqys_kit.Types.FixedBytes.{Bytes, Fits-fixed, construct-eq-ok}
use uniqys_kit.Signature.{Crypto, Hash, Address, Signature}
use uniqys_kit.Signature.Keys.{
  hash_deserialize, address_deserialize, signature_deserialize, recovery, construct, public_key_of,
  from_data, from_public_key, sign, recover, address, key_pair_public_key, key_pair_address,
}

abbrev pub IsHash : Hash → Type 0
IsHash h = length h ≡ 32

abbrev pub IsAddress : Address → Type 0
IsAddress a = length a ≡ 20

-- What the constructor of Signature admits.
abbrev pub IsSignature : Signature → Type 0
IsSignature s = construct s ≡ ok s

pub Fits-hash : (h : Hash) → IsHash h → Fits FixedBytes.serialize hash_deserialize h
Fits-hash h size = Fits-fixed 32 h size

pub Fits-address : (a : Address) → IsAddress a → Fits FixedBytes.serialize address_deserialize a
Fits-address a size = Fits-fixed 20 a size

construct-length : (s : Signature) → IsSignature s → length s ≡ 65
unfolding construct
construct-length s h = ground arith

pub Fits-signature :
    (s : Signature) → IsSignature s → Fits FixedBytes.serialize signature_deserialize s
unfolding FixedBytes.serialize signature_deserialize
Fits-signature s valid = record {
  bytes = s;
  writes = Writes-append s;
  reads = λ r rest e.
      let (taken, left) = rw (construct-length s valid) at (consume_lem r s rest e) in
      ((consume 65 r).1, rw (taken, valid) refl, left);
}

serialize-byte : (n : ℕ) → n < 256 → Codec.serialize UInt8.serialize n ≡ ok (n ∷ [])
unfolding Codec.serialize
serialize-byte n h =
    let fits = Fits-uint8 n h in
    let (w, e, holds) = fits.writes new_writer [] Holds-new in
    rw (e, contents-Holds holds, bytes-uint8 n h)

get_elem?-append_length {ℓ} :
    {A : Type ℓ} (xs : List A) (x : A) (n : ℕ) → length xs ≡ n → get_elem? (xs ++ x ∷ []) n ≡ some x
get_elem?-append_length xs x n size = rw (← size) (go xs)
  where
    go : (ys : List _) → get_elem? (ys ++ x ∷ []) (length ys) ≡ some x
    go [] = refl
    go (y ∷ ys) = go ys

public_key_of-whole :
    (key public : Bytes)
    → FixedBytes.construct 64 (drop 1 key) ≡ ok public
    → public_key_of (some key) ≡ ok public
unfolding public_key_of
public_key_of-whole key public h = rw (h, public_key_of)

module _ (c : Crypto) where
  pub from_data-IsHash : (bytes : Bytes) → IsHash (from_data c bytes)
  unfolding from_data
  from_data-IsHash bytes = c.length-keccak256 bytes

  pub from_public_key-IsAddress : (key : Bytes) → IsAddress (from_public_key c key)
  unfolding from_public_key
  from_public_key-IsAddress key =
      let size = length-drop 12 (from_data c key) in
      length-take 20 (drop 12 (from_data c key)) (omega (arith, size, from_data-IsHash key))

  recovery-signed :
      (digest : Hash) (key : Bytes)
      → let (signature, flag) = c.sign digest key in
        recovery (signature ++ (flag + 27) ∷ []) ≡ ok (flag + 27)
  unfolding recovery
  recovery-signed digest key =
      let (signature, flag) = c.sign digest key in
      rw (get_elem?-append_length signature (flag + 27) 64 (c.length-sign digest key))

  construct-signed :
      (digest : Hash) (key : Bytes)
      → let (signature, flag) = c.sign digest key in
        let s = signature ++ (flag + 27) ∷ [] in construct s ≡ ok s
  unfolding construct
  construct-signed digest key =
      let (signature, flag) = c.sign digest key in
      let size : length (signature ++ (flag + 27) ∷ []) ≡ 65 =
        length-append signature _ ∙ ap (λ n. n + 1) (c.length-sign digest key) in
      rw (size, recovery-signed digest key) (ground (arith, c.recovery-lt digest key))

  -- Signing gives a well-formed signature, and the address recovered from it is that of the key
  -- pair.
  pub address-sign :
      (digest : Hash) (key : Bytes)
      → (s : Signature) × (sign c digest key ≡ ok s)
        × IsSignature s
        × (address c digest s ≡ key_pair_address c key)
  unfolding sign address recover key_pair_address key_pair_public_key
  address-sign digest key =
      let (signature, flag) = c.sign digest key in
      let low = c.recovery-lt digest key in
      let valid = construct-signed digest key in
      let stored : take 64 (signature ++ (flag + 27) ∷ []) ≡ signature =
        rw (c.length-sign digest key) at (take-append signature ((flag + 27) ∷ [])) in
      let same_flag : (flag + 27 + 1) % 2 ≡ flag = omega (arith, low) in
      let public = drop 1 (c.public_key_create key) in
      let whole : FixedBytes.construct 64 public ≡ ok public =
        construct-eq-ok 64 public
          (length-drop 1 (c.public_key_create key) ∙ ap (λ n. n - 1) (c.length-public_key key)) in
      (
        signature ++ (flag + 27) ∷ [],
        rw (serialize-byte (flag + 27) (omega (arith, low))) valid,
        valid,
        rw
            (
              recovery-signed digest key,
              stored,
              same_flag,
              c.recover-sign digest key,
              public_key_of-whole (c.public_key_create key) public whole,
              whole,
            )
            refl,
      )
