-- ===== src/Trie/Hashing/Pushes.antt =====
-- packages/merkle-patricia-trie/src: what the operations of a proof leave on the stack.
use uniqys_kit.Prelude.{
  ℕ, zero, suc, ◌+◌, ◌≡◌, refl, sym, subst, ◌∙◌, [], ◌∷◌, ◌++◌, append-nil, append_assoc, Option,
  none, some, length, length-append, take-append, drop-append, arith, Result, ok, ◌>>=◌, >>=-eq-ok,
  ok-injective,
}
use uniqys_kit.Types.FixedBytes.{Bytes}
use uniqys_kit.Signature.{Crypto}
use uniqys_kit.Signature.Keys.{from_data}
use uniqys_kit.Signature.Recovery.{from_data-IsHash}
use uniqys_kit.Trie.Proof
use uniqys_kit.Trie.Proof.{
  MerkleProof, Operation, load_operation, value_operation, hash_operation, calculate_from, operate,
  calculate, verify, size_from, size_after, result_size, start_of, optimize,
}
use uniqys_kit.Trie.Proof.Optimize.{calculate_from-append}
use uniqys_kit.Trie.Node.{Content, Child, absent, of_hash, of_node}
use uniqys_kit.Trie.Hashing.{
  content_bytes, joined, optional_bytes, hash, child_hash, load_child, load_content,
}

size_from-append :
    (first second : MerkleProof) (size : ℕ)
    → size_from (first ++ second) size ≡ size_from second (size_from first size)
unfolding size_from
size_from-append [] second size = refl
size_from-append (op ∷ first) second size = size_from-append first second (size_after op size)

module _ (c : Crypto) where
  -- The operations put the bytes on top of any stack, and count them.
  pub record Pushes (ops : MerkleProof) (bytes : Bytes) : Type 0 where
    pub runs : (stack : Bytes) → calculate_from c ops stack ≡ stack ++ bytes
    pub sizes : (size : ℕ) → size_from ops size ≡ size + length bytes

  pub Pushes-nil : Pushes [] []
  unfolding calculate_from size_from
  Pushes-nil = record { runs = λ stack. sym (append-nil stack); sizes = λ size. omega arith }

  pub Pushes-load : (bytes : Bytes) → Pushes (load_operation bytes ∷ []) bytes
  unfolding calculate_from size_from operate size_after
  Pushes-load bytes = record { runs = λ stack. refl; sizes = λ size. refl }

  pub Pushes-value : (bytes : Bytes) → Pushes (value_operation bytes ∷ []) bytes
  unfolding calculate_from size_from operate size_after
  Pushes-value bytes = record { runs = λ stack. refl; sizes = λ size. refl }

  pub Pushes-append :
      (first second : MerkleProof) (xs ys : Bytes)
      → Pushes first xs
      → Pushes second ys
      → Pushes (first ++ second) (xs ++ ys)
  Pushes-append first second xs ys p q = record {
    runs = λ stack.
        rw (calculate_from-append c first second stack, p.runs stack, q.runs (stack ++ xs))
          (append_assoc stack xs ys);
    sizes = λ size.
        rw
          (
            size_from-append first second size,
            p.sizes size,
            q.sizes (size + length xs),
            length-append xs ys,
          )
          (omega arith);
  }

  start_of-append :
      (stack bytes : Bytes) → start_of (length (stack ++ bytes)) (length bytes) ≡ length stack
  unfolding start_of
  start_of-append stack bytes = ground (arith, length-append stack bytes)

  operate-hash :
      (stack bytes : Bytes)
      → operate c (hash_operation (length bytes)) (stack ++ bytes) ≡ stack ++ from_data c bytes
  unfolding operate
  operate-hash stack bytes =
      rw (start_of-append stack bytes, take-append stack bytes, drop-append stack bytes) refl

  pub Pushes-hash :
      (ops : MerkleProof) (bytes : Bytes)
      → Pushes ops bytes
      → Pushes (Proof.hash ops) (from_data c bytes)
  unfolding Proof.hash result_size calculate_from size_from size_after
  Pushes-hash ops bytes p =
      let consumed : result_size ops ≡ length bytes = p.sizes 0 ∙ omega arith in
      record {
        runs = λ stack.
            rw (calculate_from-append c ops _ stack, p.runs stack, consumed)
              (operate-hash stack bytes);
        sizes = λ size.
            rw (size_from-append ops _ size, p.sizes size, consumed)
              (omega (arith, from_data-IsHash c bytes));
      }

  -- What a result of equal parts is.
  pub Pushes-is :
      {ops ops' : MerkleProof} {bytes bytes' : Bytes}
      → ok ops ≡ ok ops'
      → ok bytes ≡ ok bytes'
      → Pushes ops bytes
      → Pushes ops' bytes'
  Pushes-is {ops} {ops'} {bytes} {bytes'} e e' p =
      subst (λ o. Pushes o bytes') (ok-injective e) (subst (Pushes ops) (ok-injective e') p)

  pub Pushes-joined :
      (n : ℕ) (f : ℕ → Result MerkleProof) (g : ℕ → Result Bytes) (ops : MerkleProof)
      (bytes : Bytes)
      → ((i : ℕ) (part : MerkleProof) (xs : Bytes) → f i ≡ ok part → g i ≡ ok xs → Pushes part xs)
      → joined n f ≡ ok ops
      → joined n g ≡ ok bytes
      → Pushes ops bytes
  unfolding joined
  Pushes-joined zero f g ops bytes each hf hg = Pushes-is hf hg Pushes-nil
  Pushes-joined (suc n) f g ops bytes each hf hg =
      let (ops₁, e₁, hf₁) =
        >>=-eq-ok (joined n f) (λ before. do here ← f n; ok (before ++ here)) hf in
      let (ops₂, e₂, hf₂) = >>=-eq-ok (f n) (λ here. ok (ops₁ ++ here)) hf₁ in
      let (xs₁, d₁, hg₁) =
        >>=-eq-ok (joined n g) (λ before. do here ← g n; ok (before ++ here)) hg in
      let (xs₂, d₂, hg₂) = >>=-eq-ok (g n) (λ here. ok (xs₁ ++ here)) hg₁ in
      Pushes-is hf₂ hg₂ (
        Pushes-append ops₁ ops₂ xs₁ xs₂ (Pushes-joined n f g ops₁ xs₁ each e₁ d₁)
          (each n ops₂ xs₂ e₂ d₂))

  pub load_child-Pushes :
      (child : Child) (ops : MerkleProof) (bytes : Bytes)
      → load_child c child ≡ ok ops
      → child_hash c child ≡ ok bytes
      → Pushes ops bytes
  unfolding load_child hash
  load_child-Pushes absent ops bytes hl hh = Pushes-is hl hh Pushes-nil
  load_child-Pushes (of_hash h) ops bytes hl hh = Pushes-is hl hh (Pushes-load h)
  load_child-Pushes (of_node n) ops bytes hl hh =
      let (h, e, e') = >>=-eq-ok (hash c n) (λ h. ok (load_operation h ∷ [])) hl in
      Pushes-is e' (sym e ∙ hh) (Pushes-load h)

  pub load_content-Pushes :
      (content : Option Content) (ops : MerkleProof) (bytes : Bytes)
      → load_content c content ≡ ok ops
      → optional_bytes c content ≡ ok bytes
      → Pushes ops bytes
  unfolding load_content optional_bytes
  load_content-Pushes none ops bytes hl hb = Pushes-is hl hb Pushes-nil
  load_content-Pushes (some content) ops bytes hl hb =
      let (b, e, e') = >>=-eq-ok (content_bytes content) (λ b. ok (load_operation b ∷ [])) hl in
      Pushes-is e' (sym e ∙ hb) (Pushes-load b)
