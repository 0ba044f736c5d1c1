-- ===== src/Trie/Proof/Optimize.antt =====
-- packages/merkle-patricia-trie/src/merkle-proof.ts: optimize against the machine.
use uniqys_kit.Prelude.{[], ◌∷◌, ◌++◌, Option, none, some, ◌≡◌, refl, sym, ap, ◌∙◌, append_assoc}
use uniqys_kit.Types.FixedBytes.{Bytes}
use uniqys_kit.Signature.{Crypto}
use uniqys_kit.Trie.Proof.{
  Operation, load_operation, value_operation, hash_operation, MerkleProof, squash, squash_all,
  optimize, operate, calculate_from, calculate,
}

module _ (c : Crypto) where
  pub calculate_from-append :
      (first second : MerkleProof) (stack : Bytes)
      → calculate_from c (first ++ second) stack
        ≡ calculate_from c second (calculate_from c first stack)
  unfolding calculate_from
  calculate_from-append [] second stack = refl
  calculate_from-append (op ∷ first) second stack =
      calculate_from-append first second (operate c op stack)

  -- What the operations so far, `top` included, make of a stack.
  so_far : Option Operation → MerkleProof → Bytes → Bytes
  so_far none ops stack = calculate_from c ops stack
  so_far (some top) ops stack = operate c top (calculate_from c ops stack)

  pushed :
      (ops : MerkleProof) (top : Operation) (stack : Bytes)
      → calculate_from c (ops ++ top ∷ []) stack ≡ operate c top (calculate_from c ops stack)
  unfolding calculate_from
  pushed ops top stack = calculate_from-append ops (top ∷ []) stack

  pushed-then :
      (ops : MerkleProof) (top op : Operation) (stack : Bytes)
      → operate c op (calculate_from c (ops ++ top ∷ []) stack)
        ≡ operate c op (operate c top (calculate_from c ops stack))
  pushed-then ops top op stack = ap (operate c op) (pushed ops top stack)

  so_far-squash :
      (top : Option Operation) (ops : MerkleProof) (op : Operation) (stack : Bytes)
      → so_far (squash top ops op).0 (squash top ops op).1 stack
        ≡ operate c op (so_far top ops stack)
  unfolding so_far squash operate
  so_far-squash none ops op stack = refl
  so_far-squash (some (load_operation first)) ops (load_operation second) stack =
      sym (append_assoc (calculate_from c ops stack) first second)
  so_far-squash (some (load_operation first)) ops (value_operation second) stack =
      pushed-then ops (load_operation first) (value_operation second) stack
  so_far-squash (some (load_operation first)) ops (hash_operation n) stack =
      pushed-then ops (load_operation first) (hash_operation n) stack
  so_far-squash (some (value_operation first)) ops op stack =
      pushed-then ops (value_operation first) op stack
  so_far-squash (some (hash_operation n)) ops op stack = pushed-then ops (hash_operation n) op stack

  calculate_from-squash_all :
      (rest : MerkleProof) (top : Option Operation) (ops : MerkleProof) (stack : Bytes)
      → calculate_from c (squash_all rest top ops) stack
        ≡ calculate_from c rest (so_far top ops stack)
  unfolding squash_all calculate_from so_far
  calculate_from-squash_all [] none ops stack = refl
  calculate_from-squash_all [] (some top) ops stack = pushed ops top stack
  calculate_from-squash_all (op ∷ rest) top ops stack =
      calculate_from-squash_all rest (squash top ops op).0 (squash top ops op).1 stack
      ∙ ap (calculate_from c rest) (so_far-squash top ops op stack)

  -- The optimized operations of any proof compute the same bytes as the operations themselves.
  pub calculate-optimize : (proof : MerkleProof) → calculate c (optimize proof) ≡ calculate c proof
  unfolding optimize calculate so_far
  calculate-optimize proof = calculate_from-squash_all proof none [] []
