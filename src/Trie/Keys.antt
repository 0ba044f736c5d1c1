-- ===== src/Trie/Keys.antt =====
-- packages/merkle-patricia-trie/src/merkle-patricia-trie/node.ts: keys of a trie. An alphabet is a
-- number below 16.
use uniqys_kit.Prelude.{
  ℕ, suc, ◌+◌, ◌*◌, ◌<◌, ◌-◌, ◌/◌, ◌%◌, Bool, true, false, ◌&&◌, All, List, [], ◌∷◌, ◌++◌, ◌≡◌,
  refl, subst, ◌==◌, if◌then◌else◌, length, take, drop, take-drop, arith, Option, none, some,
  Bool-cases, inl, inr,
}
use uniqys_kit.Types.FixedBytes.{Bytes, equals}

abbrev pub Key : Type 0
Key = List ℕ

-- The first index where the keys differ, or the length of the first.
unfoldable pub diff_index : Key → Key → ℕ
diff_index [] key₂ = 0
diff_index (a ∷ key₁) [] = 0
diff_index (a ∷ key₁) (b ∷ key₂) = let rest = diff_index key₁ key₂ in if a == b then suc rest else 0

pub record Match : Type 0 where
  pub equal : Bool
  pub prefix : Key
  pub remain₁ : Key
  pub remain₂ : Key

unfoldable pub match : Key → Key → Match
unfolding diff_index
match key₁ key₂ =
    let diff = diff_index key₁ key₂ in
    record {
      equal = (length key₁ == length key₂) && (length key₁ == diff);
      prefix = take diff key₁;
      remain₁ = drop diff key₁;
      remain₂ = drop diff key₂;
    }

-- keyToBuffer: the last byte of a key of odd length is NaN, which a Buffer takes for 0.
unfoldable pub key_to_buffer : Key → Bytes
key_to_buffer [] = []
key_to_buffer (high ∷ []) = 0 ∷ []
key_to_buffer (high ∷ low ∷ key) = (high * 16 + low) ∷ key_to_buffer key

unfoldable pub buffer_to_key : Bytes → Key
buffer_to_key [] = []
buffer_to_key (byte ∷ bytes) = ((byte - byte % 16) / 16) ∷ (byte % 16) ∷ buffer_to_key bytes

-- What follows the prefix, if the key starts with it.
unfoldable pub strip : Key → Key → Option Key
strip [] k = some k
strip (x ∷ p) [] = none
strip (x ∷ p) (a ∷ k) = if x == a then strip p k else none

-- How a key stands to a prefix.
pub data Standing (p k : Key) : Type 0 where
  exact : (match p k).remain₁ ≡ [] → (match p k).remain₂ ≡ [] → strip p k ≡ some [] → Standing p k
  below :
      (a : ℕ) (rest : Key)
      → (match p k).remain₁ ≡ []
      → (match p k).remain₂ ≡ a ∷ rest
      → strip p k ≡ some (a ∷ rest)
      → Standing p k
  apart : (x : ℕ) (rest : Key) → (match p k).remain₁ ≡ x ∷ rest → strip p k ≡ none → Standing p k

pub standing : (p k : Key) → Standing p k
unfolding match diff_index strip
standing [] [] = exact refl refl refl
standing [] (a ∷ k) = below a k refl refl refl
standing (x ∷ p) [] = apart x p refl refl
standing (x ∷ p) (a ∷ k) = elim (Bool-cases (x == a)) [
  | inl e ↦ elim (standing p k) [
    | exact r₁ r₂ s ↦ exact (rw e r₁) (rw e r₂) (rw e s)
    | below b rest r₁ r₂ s ↦ below b rest (rw e r₁) (rw e r₂) (rw e s)
    | apart y rest r s ↦ apart y rest (rw e r) (rw e s)
  ]
  | inr e ↦ apart x p (rw e refl) (rw e refl)
]

pub prefix-remain₁ : (p k : Key) → (match p k).prefix ++ (match p k).remain₁ ≡ p
unfolding match
prefix-remain₁ p k = take-drop (diff_index p k) p

-- Where the prefix is behind another, the key has to start with both.
abbrev pub strip_more : Key → Option Key → Option Key
strip_more q none = none
strip_more q (some k) = strip q k

pub strip-append : (p q k : Key) → strip (p ++ q) k ≡ strip_more q (strip p k)
unfolding strip
strip-append [] q k = refl
strip-append (x ∷ p) q [] = refl
strip-append (x ∷ p) q (a ∷ k) = elim (Bool-cases (x == a)) [
  | inl e ↦ rw e (strip-append p q k)
  | inr e ↦ rw e refl
]

-- What follows a prefix, if anything does, is the given key.
abbrev pub same : Key → Option Key → Bool
same u none = false
same u (some v) = equals u v

-- A key that starts with the prefix is equal to those with the same rest.
pub equals-same : (p k j u : Key) → strip p k ≡ some u → equals k j ≡ same u (strip p j)
unfolding strip equals
equals-same [] k j u h = cc
equals-same (x ∷ p) [] j u h = cc
equals-same (x ∷ p) (a ∷ k) [] u h = refl
equals-same (x ∷ p) (a ∷ k) (b ∷ j) u h = ground (arith, equals-same p k j u)

-- Only the prefix itself leaves nothing.
abbrev pub is_end : Option Key → Bool
is_end none = false
is_end (some []) = true
is_end (some (a ∷ k)) = false

pub equals-is_end : (p k : Key) → equals p k ≡ is_end (strip p k)
unfolding strip equals
equals-is_end [] [] = refl
equals-is_end [] (a ∷ k) = refl
equals-is_end (x ∷ p) [] = refl
equals-is_end (x ∷ p) (a ∷ k) = elim (Bool-cases (x == a)) [
  | inl e ↦ rw e (equals-is_end p k)
  | inr e ↦ rw e refl
]

abbrev pub starts_with : ℕ → Key → Bool
starts_with x [] = false
starts_with x (a ∷ k) = x == a

-- Where a key parts from a prefix: it starts with the shared part, and then goes on otherwise.
pub parting :
    (p k : Key) (x : ℕ) (xs : Key)
    → (match p k).remain₁ ≡ x ∷ xs
    → (r : Key) × (strip (match p k).prefix k ≡ some r) × (starts_with x r ≡ false)
unfolding match diff_index strip
parting [] k x xs h = cc
parting (y ∷ p) [] x xs h = ([], refl, refl)
parting (y ∷ p) (a ∷ k) x xs h = elim (Bool-cases (y == a)) [
  | inl e ↦ let (r, s, t) = parting p k x xs (rw e at h) in (r, rw (e, e) s, t)
  | inr e ↦
      let whole : y ∷ p ≡ x ∷ xs = rw e at h in
      let head : y ≡ x = cc in (a ∷ k, rw e refl, subst (λ t. (t == a) ≡ false) head e)
]

-- What follows a prefix has alphabets of the key.
pub strip-All :
    (p k : Key) (a : ℕ) (u : Key)
    → strip p k ≡ some (a ∷ u)
    → All (λ b. b < 16) k
    → (a < 16) × All (λ b. b < 16) u
unfolding strip
strip-All [] [] a u h small = cc
strip-All [] (b ∷ k) a u h small =
    let same : b ∷ k ≡ a ∷ u = cc in subst (All (λ b. b < 16)) same small
strip-All (x ∷ p) [] a u h small = cc
strip-All (x ∷ p) (b ∷ k) a u h (first, small) = elim (Bool-cases (x == b)) [
  | inl e ↦ strip-All p k a u (rw e at h) small
  | inr e ↦ (let differ : none ≡ some (a ∷ u) = rw e at h in absurd cc)
]
