-- ===== src/Trie/Store/Keys.antt =====
-- packages/merkle-patricia-trie/src/merkle-patricia-trie/node.ts: the bytes of a node's prefix.
use uniqys_kit.Prelude.{
  suc, ◌+◌, ◌*◌, ◌/◌, ◌%◌, ◌-◌, ◌<◌, ◌≡◌, refl, ap, ◌∙◌, ◌==◌, ==→eq, Bool-cases, inl, inr, [], ◌∷◌,
  All, length, drop, arith,
}
use uniqys_kit.Trie.Keys.{Key, key_to_buffer, buffer_to_key}
use uniqys_kit.Trie.Store.{even_key, buffer_size, without_filler}

buffer_to_key-key_to_buffer :
    (key : Key)
    → All (λ a. a < 16) key
    → length key % 2 ≡ 0
    → buffer_to_key (key_to_buffer key) ≡ key
unfolding buffer_to_key key_to_buffer
buffer_to_key-key_to_buffer [] small even = refl
buffer_to_key-key_to_buffer (high ∷ []) small even = absurd (omega (arith, even))
buffer_to_key-key_to_buffer (high ∷ low ∷ key) (h, (l, small)) even =
    let rest = buffer_to_key-key_to_buffer key small (omega (arith, even)) in
    let lower : (high * 16 + low) % 16 ≡ low = omega (arith, l) in
    let upper : ((high * 16 + low) - low) / 16 ≡ high = omega arith in rw (lower, upper, rest) refl

length-key_to_buffer :
    (key : Key) → length key % 2 ≡ 0 → length (key_to_buffer key) ≡ length key / 2
unfolding key_to_buffer
length-key_to_buffer [] even = refl
length-key_to_buffer (high ∷ []) even = absurd (omega (arith, even))
length-key_to_buffer (high ∷ low ∷ key) even =
    omega (arith, length-key_to_buffer key (omega (arith, even)))

-- The bytes of a prefix have the size that is read, and give the prefix back.
pub even_key-read :
    (key : Key)
    → All (λ a. a < 16) key
    → (length (key_to_buffer (even_key key)) ≡ buffer_size (length key))
      × (without_filler (length key) (buffer_to_key (key_to_buffer (even_key key))) ≡ key)
even_key-read key small = elim (Bool-cases (length key % 2 == 0)) [
  | inl even ↦
      let parity = ==→eq (length key % 2) 0 even in
      rw even (length-key_to_buffer key parity, buffer_to_key-key_to_buffer key small parity)
  | inr odd ↦
      let parity : suc (length key) % 2 ≡ 0 = ground (arith) in
      let one_more : suc (length key) / 2 ≡ (length key + 1) / 2 = omega arith in
      rw odd (
        length-key_to_buffer (0 ∷ key) parity ∙ one_more,
        ap (drop 1) (buffer_to_key-key_to_buffer (0 ∷ key) (omega arith, small) parity),
      )
]
