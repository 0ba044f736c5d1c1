-- ===== src/Trie/Hashing/Proofs.antt =====
-- packages/merkle-patricia-trie/src/merkle-patricia-trie/node.ts: the operations of a proof of a node
-- leave its hash on the stack.
use uniqys_kit.Prelude.{
  ℕ, zero, suc, ◌≡◌, refl, sym, ap, subst, ◌∙◌, [], ◌∷◌, ◌++◌, Option, none, some, ◌==◌, ==→eq,
  if◌then◌else◌, length, Result, ok, err, key_does_not_exist, ◌>>=◌, >>=-eq-ok, ok-injective, true,
  Bool-cases, inl, inr,
}
use uniqys_kit.Types.FixedBytes.{Bytes, equals_refl}
use uniqys_kit.Signature.{Crypto, Hash}
use uniqys_kit.Signature.Keys.{from_data}
use uniqys_kit.Trie.Keys.{Key, standing, exact, below, apart}
use uniqys_kit.Trie.Proof
use uniqys_kit.Trie.Proof.{
  MerkleProof, Operation, load_operation, value_operation, hash_operation, calculate_from, operate,
  calculate, verify, size_from, size_after, result_size, start_of, optimize,
}
use uniqys_kit.Trie.Proof.Optimize.{calculate-optimize}
use uniqys_kit.Trie.Node.{Content, Node, node, Child, absent, of_hash, of_node, Branch, descend}
use uniqys_kit.Trie.Hashing.{
  content_bytes, joined, optional_bytes, hash, child_hash, load_child, load_content, prove_here,
  prove_child, prove_below, prove_from, prove,
}
use uniqys_kit.Trie.Hashing.Pushes.{
  Pushes, Pushes-value, Pushes-append, Pushes-hash, Pushes-is, Pushes-joined, load_child-Pushes,
  load_content-Pushes,
}

module _ (c : Crypto) where
  -- The parts of a hash.
  pub hash-parts :
      (p : Key) (children : Branch) (content : Option Content) (h : Hash)
      → hash c (node p children content) ≡ ok h
      → (hashes : Bytes) × (rest : Bytes) × (joined 16 (λ i. child_hash c (children i)) ≡ ok hashes)
        × (optional_bytes c content ≡ ok rest)
        × (h ≡ from_data c (hashes ++ rest))
  unfolding hash
  hash-parts p children content h e =
      let (hashes, e₁, e') =
        >>=-eq-ok (joined 16 (λ i. child_hash c (children i)))
          (λ hashes. do rest ← optional_bytes c content; ok (from_data c (hashes ++ rest))) e in
      let (rest, e₂, e'') =
        >>=-eq-ok (optional_bytes c content) (λ rest. ok (from_data c (hashes ++ rest))) e' in
      (hashes, rest, e₁, e₂, sym (ok-injective e''))

  prove_here-Pushes :
      (p : Key) (children : Branch) (content : Option Content) (proof : MerkleProof) (h : Hash)
      → prove_here c children content ≡ ok proof
      → hash c (node p children content) ≡ ok h
      → Pushes c proof h
  unfolding prove_here Proof.value optional_bytes
  prove_here-Pushes p children none proof h hp hh = cc
  prove_here-Pushes p children (some content) proof h hp hh =
      let (hashes, rest, h₁, h₂, whole) = hash-parts p children (some content) h hh in
      let (ops, e₁, hp₁) =
        >>=-eq-ok (joined 16 (λ i. load_child c (children i)))
          (λ ops. do b ← content_bytes content; ok (Proof.hash (Proof.value b ops))) hp in
      let (b, e₂, hp₂) =
        >>=-eq-ok (content_bytes content) (λ b. ok (Proof.hash (Proof.value b ops))) hp₁ in
      let same_bytes : b ≡ rest = ok-injective (sym e₂ ∙ h₂) in
      Pushes-is c hp₂ (ap ok (sym whole)) (
        Pushes-hash c (Proof.value b ops) (hashes ++ rest) (
          Pushes-append c ops (value_operation b ∷ []) hashes rest
            (Pushes-joined c 16 _ _ ops hashes (λ i. load_child-Pushes c (children i)) e₁ h₁)
            (subst (Pushes c (value_operation b ∷ [])) same_bytes (Pushes-value c b))))

  part-Pushes :
      (children : Branch) (a : ℕ) (child_proof : MerkleProof) (i : ℕ) (part : MerkleProof)
      (xs : Bytes)
      → ((bytes : Bytes) → child_hash c (children a) ≡ ok bytes → Pushes c child_proof bytes)
      → (if i == a then ok child_proof else load_child c (children i)) ≡ ok part
      → child_hash c (children i) ≡ ok xs
      → Pushes c part xs
  part-Pushes children a child_proof i part xs child hp hh = elim (Bool-cases (i == a)) [
    | inl e ↦ Pushes-is c (rw e at hp) refl (child xs (rw (==→eq i a e) at hh))
    | inr e ↦ load_child-Pushes c (children i) part xs (rw e at hp) hh
  ]

  module _ (read : Hash → Result Node) where
    prove_below-Pushes :
        (p : Key) (children : Branch) (content : Option Content) (a : ℕ)
        (child_proof proof : MerkleProof) (h : Hash)
        → ((bytes : Bytes) → child_hash c (children a) ≡ ok bytes → Pushes c child_proof bytes)
        → prove_below c read children content a (some child_proof) ≡ ok proof
        → hash c (node p children content) ≡ ok h
        → Pushes c proof h
    unfolding prove_below
    prove_below-Pushes p children content a child_proof proof h child hp hh =
        let (hashes, rest, h₁, h₂, whole) = hash-parts p children content h hh in
        let (ops, e₁, hp₁) =
          >>=-eq-ok (joined 16 (λ i. if i == a then ok child_proof else load_child c (children i)))
            (λ ops. do last ← load_content c content; ok (Proof.hash (ops ++ last))) hp in
        let (last, e₂, hp₂) =
          >>=-eq-ok (load_content c content) (λ last. ok (Proof.hash (ops ++ last))) hp₁ in
        Pushes-is c hp₂ (ap ok (sym whole)) (
          Pushes-hash c (ops ++ last) (hashes ++ rest) (
            Pushes-append c ops last hashes rest
              (Pushes-joined c 16 _ _ ops hashes
                (λ i part xs. part-Pushes children a child_proof i part xs child) e₁ h₁)
              (load_content-Pushes c content last rest e₂ h₂)))

    -- Without a proof of the child there is none.
    prove_below-found :
        (p : Key) (children : Branch) (content : Option Content) (a : ℕ)
        (child_proof : Option MerkleProof) (proof : MerkleProof) (h : Hash)
        → ((found : MerkleProof)
            → child_proof ≡ some found
            → (bytes : Bytes) → child_hash c (children a) ≡ ok bytes
            → Pushes c found bytes)
        → prove_below c read children content a child_proof ≡ ok proof
        → hash c (node p children content) ≡ ok h
        → Pushes c proof h
    unfolding prove_below
    prove_below-found p children content a none proof h child hp hh = cc
    prove_below-found p children content a (some found) proof h child hp hh =
        prove_below-Pushes p children content a found proof h (child found refl) hp hh

    module _ (sound : (h : Hash) (n : Node) → read h ≡ ok n → hash c n ≡ ok h) where
      prove_child-Pushes :
          (visit : Node → Result MerkleProof) (child : Child) (found : MerkleProof) (bytes : Bytes)
          → ((n : Node) (q : MerkleProof) (h : Hash)
              → visit n ≡ ok q
              → hash c n ≡ ok h
              → Pushes c q h)
          → prove_child c read visit child ≡ ok (some found)
          → child_hash c child ≡ ok bytes
          → Pushes c found bytes
      unfolding prove_child hash
      prove_child-Pushes visit absent found bytes each hp hh = cc
      prove_child-Pushes visit (of_hash h) found bytes each hp hh =
          let (n, e, hp₁) = >>=-eq-ok (read h) (λ n. do q ← visit n; ok (some q)) hp in
          let (q, e', hp₂) = >>=-eq-ok (visit n) (λ q. ok (some q)) hp₁ in
          let is_found : ok q ≡ ok found = cc in
          Pushes-is c is_found hh (each n q h e' (sound h n e))
      prove_child-Pushes visit (of_node n) found bytes each hp hh =
          let (q, e', hp₂) = >>=-eq-ok (visit n) (λ q. ok (some q)) hp in
          let is_found : ok q ≡ ok found = cc in Pushes-is c is_found refl (each n q bytes e' hh)

      prove_from-Pushes :
          (fuel : ℕ) (n : Node) (k : Key) (proof : MerkleProof) (h : Hash)
          → prove_from c read fuel n k ≡ ok proof
          → hash c n ≡ ok h
          → Pushes c proof h
      unfolding prove_from descend
      prove_from-Pushes zero n k proof h hp hh = cc
      prove_from-Pushes (suc fuel) (node p children content) k proof h hp hh = elim (standing p k) [
        | exact r₁ r₂ s ↦ prove_here-Pushes p children content proof h (rw (r₁, r₂) at hp) hh
        | below a u r₁ r₂ s ↦
            let visit : Node → Result MerkleProof = λ n. prove_from c read fuel n u in
            let (child_proof, e, hp') =
              >>=-eq-ok (prove_child c read visit (children a))
                (prove_below c read children content a) (rw (r₁, r₂) at hp) in
            prove_below-found p children content a child_proof proof h
              (λ found is bytes.
                prove_child-Pushes visit (children a) found bytes
                  (λ n q h. prove_from-Pushes fuel n u q h) (e ∙ ap ok is))
              hp' hh
        | apart x xs r s ↦ let thrown : err key_does_not_exist ≡ ok proof = rw r at hp in cc
      ]

      -- The machine that carries out the proof ends with the hash.
      pub verify-prove :
          (n : Node) (k : Key) (proof : MerkleProof) (h : Hash)
          → prove c read n k ≡ ok proof
          → hash c n ≡ ok h
          → verify c h (optimize proof) ≡ true
      unfolding prove verify calculate
      verify-prove n k proof h hp hh =
          let p = prove_from-Pushes (suc (length k)) n k proof h hp hh in
          rw (calculate-optimize c proof, p.runs []) (equals_refl h)
