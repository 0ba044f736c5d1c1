-- ===== src/Trie/Hashing/Provable.antt =====
-- packages/merkle-patricia-trie/src/merkle-patricia-trie/node.ts: prove returns for each key that get
-- finds.
use uniqys_kit.Prelude.{
  ℕ, zero, suc, ◌<◌, ◌≡◌, refl, sym, ap, subst, ◌∙◌, List, [], ◌++◌, All, Option, none, some, ◌==◌,
  ==→eq, if◌then◌else◌, length, arith, Result, ok, ◌>>=◌, >>=-eq-ok, ok-injective, true, Bool-cases,
  inl, inr,
}
use uniqys_kit.Types.FixedBytes.{Bytes}
use uniqys_kit.Signature.{Crypto, Hash}
use uniqys_kit.Trie.Keys.{Key, strip-All, standing, exact, below, apart}
use uniqys_kit.Trie.Proof.{MerkleProof, verify, optimize}
use uniqys_kit.Trie.Node.{
  Content, Node, node, Child, absent, of_hash, of_node, Branch, descend, on_child, get,
}
use uniqys_kit.Trie.Node.Lookup.{strip-length, get_child, at_rest, get-strip}
use uniqys_kit.Trie.Hashing.{
  joined, optional_bytes, hash, child_hash, load_child, load_content, prove_here, prove_child,
  prove_below, prove_from, prove,
}
use uniqys_kit.Trie.Hashing.Proofs.{hash-parts, verify-prove}

abbrev Returns : {A : Type 0} → Result A → Type 0
Returns {A} result = (a : A) × (result ≡ ok a)

module _ {A : Type 0} where
  joined-Returns :
      (n : ℕ) (f : ℕ → Result (List A)) → ((i : ℕ) → i < n → Returns (f i)) → Returns (joined n f)
  unfolding joined
  joined-Returns zero f each = ([], refl)
  joined-Returns (suc n) f each =
      let (before, e) = joined-Returns n f (λ i h. each i (omega arith)) in
      let (here, e') = each n (omega arith) in (before ++ here, rw (e, e') refl)

  joined-part :
      (n : ℕ) (f : ℕ → Result (List A)) (whole : List A)
      → joined n f ≡ ok whole
      → (i : ℕ) → i < n
      → Returns (f i)
  unfolding joined
  joined-part zero f whole e i h = absurd (omega arith)
  joined-part (suc n) f whole e i h =
      let (before, e₁, e₂) =
        >>=-eq-ok (joined n f) (λ before. do here ← f n; ok (before ++ here)) e in
      let (here, e₃, e₄) = >>=-eq-ok (f n) (λ here. ok (before ++ here)) e₂ in
      elim (Bool-cases (i == n)) [
        | inl last ↦ subst (λ j. Returns (f j)) (sym (==→eq i n last)) (here, e₃)
        | inr other ↦ joined-part n f before e₁ i (ground arith)
      ]

module _ (c : Crypto) where
  load_child-Returns : (child : Child) → Returns (child_hash c child) → Returns (load_child c child)
  unfolding load_child hash
  load_child-Returns absent r = (_, refl)
  load_child-Returns (of_hash h) r = (_, refl)
  load_child-Returns (of_node n) (h, e) = rw e (_, refl)

  load_content-Returns :
      (content : Option Content)
      → Returns (optional_bytes c content)
      → Returns (load_content c content)
  unfolding load_content optional_bytes
  load_content-Returns none r = (_, refl)
  load_content-Returns (some content) (b, e) = rw e (_, refl)

  module _ (p : Key) (children : Branch) (content : Option Content) (h : Hash)
      (hashed : hash c (node p children content) ≡ ok h) where
    child_hash-Returns : (i : ℕ) → i < 16 → Returns (child_hash c (children i))
    child_hash-Returns i below_16 =
        let (hashes, rest, e₁, e₂, whole) = hash-parts c p children content h hashed in
        joined-part 16 (λ i. child_hash c (children i)) hashes e₁ i below_16

    content-Returns : Returns (optional_bytes c content)
    content-Returns =
        let (hashes, rest, e₁, e₂, whole) = hash-parts c p children content h hashed in (rest, e₂)

    part-Returns :
        (i : ℕ)
        → i < 16
        → (a : ℕ) (child_proof : MerkleProof)
        → Returns (if i == a then ok child_proof else load_child c (children i))
    part-Returns i small a child_proof = elim (Bool-cases (i == a)) [
      | inl e ↦ rw e (child_proof, refl)
      | inr e ↦ rw e (load_child-Returns (children i) (child_hash-Returns i small))
    ]

    prove_below-Returns :
        (read : Hash → Result Node) (a : ℕ) (child_proof : MerkleProof)
        → Returns (prove_below c read children content a (some child_proof))
    unfolding prove_below
    prove_below-Returns read a child_proof =
        let (ops, e) =
          joined-Returns 16 (λ i. if i == a then ok child_proof else load_child c (children i))
            (λ i small. part-Returns i small a child_proof) in
        let (last, e') = load_content-Returns content content-Returns in rw (e, e') (_, refl)

  prove_here-Returns :
      (p : Key) (children : Branch) (found : Content) (h : Hash)
      → hash c (node p children (some found)) ≡ ok h
      → Returns (prove_here c children (some found))
  unfolding prove_here optional_bytes
  prove_here-Returns p children found h hashed =
      let (ops, e) =
        joined-Returns 16 (λ i. load_child c (children i))
          (λ i small.
            load_child-Returns (children i)
              (child_hash-Returns p children (some found) h hashed i small)) in
      let (b, e') = content-Returns p children (some found) h hashed in rw (e, e') (_, refl)

  module _ (read : Hash → Result Node)
      (sound : (h : Hash) (n : Node) → read h ≡ ok n → hash c n ≡ ok h) where
    -- A child whose content is found has a proof.
    prove_child-Returns :
        (visit : Node → Result MerkleProof) (child : Child) (rest : Key) (found : Content)
        (h : Bytes)
        → ((n : Node) (h : Hash)
            → get read n rest ≡ ok (some found)
            → hash c n ≡ ok h
            → Returns (visit n))
        → get_child read rest child ≡ ok (some found)
        → child_hash c child ≡ ok h
        → (q : MerkleProof) × (prove_child c read visit child ≡ ok (some q))
    unfolding prove_child get_child on_child hash
    prove_child-Returns visit absent rest found h each hg hh = cc
    prove_child-Returns visit (of_node n) rest found h each hg hh =
        let (q, e) = each n h hg hh in rw e (q, refl)
    prove_child-Returns visit (of_hash r) rest found h each hg hh =
        let (n, e, hg') = >>=-eq-ok (read r) (λ n. get read n rest) hg in
        let (q, e') = each n r hg' (sound r n e) in rw (e, e') (q, refl)

    prove_from-Returns :
        (fuel : ℕ) (n : Node) (k : Key) (found : Content) (h : Hash)
        → length k < fuel
        → All (λ a. a < 16) k
        → get read n k ≡ ok (some found)
        → hash c n ≡ ok h
        → Returns (prove_from c read fuel n k)
    unfolding prove_from descend at_rest
    prove_from-Returns zero n k found h enough small hg hh = absurd (omega arith)
    prove_from-Returns (suc fuel) (node p children content) k found h enough small hg hh =
        elim (standing p k) [
          | exact r₁ r₂ s ↦
              let is : content ≡ some found = ok-injective (
                sym (ap (at_rest read content children) s)
                ∙ sym (get-strip read p children content k)
                ∙ hg) in
              rw (r₁, r₂, is) (prove_here-Returns p children found h (rw is at hh))
          | below a u r₁ r₂ s ↦
              let shorter = strip-length p k a u s in
              let in_child : get_child read u (children a) ≡ ok (some found) =
                sym (ap (at_rest read content children) s)
                ∙ sym (get-strip read p children content k)
                ∙ hg in
              let (below_16, small') = strip-All p k a u s small in
              let (g, hashed) = child_hash-Returns p children content h hh a below_16 in
              let (q, e) =
                prove_child-Returns (λ n. prove_from c read fuel n u) (children a) u found g
                  (λ n h hg hh. prove_from-Returns fuel n u found h (omega arith) small' hg hh)
                  in_child hashed in
              rw (r₁, r₂, e) (prove_below-Returns p children content h hh read a q)
          | apart x xs r s ↦
              let missing : ok none ≡ ok (some found) =
                sym (ap (at_rest read content children) s)
                ∙ sym (get-strip read p children content k)
                ∙ hg in
              absurd cc
        ]

    -- If get finds a content under a key of alphabets below 16, the node has a hash, and every node
    -- that is read has the hash under which it is read, then prove returns a proof, and verify
    -- accepts the optimized proof for the hash of the node.
    pub prove-IsVerified :
        (n : Node) (k : Key) (found : Content) (h : Hash)
        → All (λ a. a < 16) k
        → get read n k ≡ ok (some found)
        → hash c n ≡ ok h
        → (proof : MerkleProof) × (prove c read n k ≡ ok proof)
          × (verify c h (optimize proof) ≡ true)
    unfolding prove
    prove-IsVerified n k found h small hg hh =
        let (proof, e) =
          prove_from-Returns (suc (length k)) n k found h (omega arith) small hg hh in
        (proof, e, verify-prove c read sound n k proof h e hh)
