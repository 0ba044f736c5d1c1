-- ===== src/Trie/Node/Lookup.antt =====
-- packages/merkle-patricia-trie/src/merkle-patricia-trie/node.ts: what get finds, by the rest of the
-- key behind the prefix.
use uniqys_kit.Prelude.{
  ℕ, zero, suc, ◌<◌, ◌≡◌, refl, ap, fun_ext, [], ◌∷◌, Option, none, some, length, arith, Result, ok,
}
use uniqys_kit.Signature.{Hash}
use uniqys_kit.Trie.Keys.{Key, strip, standing, exact, below, apart}
use uniqys_kit.Trie.Node.{Content, Node, node, Child, Branch, descend, on_child, get_from, get}

pub strip-length :
    (p k : Key) (a : ℕ) (rest : Key) → strip p k ≡ some (a ∷ rest) → length rest < length k
unfolding strip
strip-length [] [] a rest h = cc
strip-length [] (b ∷ k) a rest h = ground (arith)
strip-length (x ∷ p) [] a rest h = cc
strip-length (x ∷ p) (b ∷ k) a rest h = ground (arith, strip-length p k a rest)

module _ (read : Hash → Result Node) where
  get_from-enough :
      (f g : ℕ) (n : Node) (k : Key)
      → length k < f
      → length k < g
      → get_from read f n k ≡ get_from read g n k
  unfolding get_from descend on_child
  get_from-enough zero g n k hf hg = absurd (omega arith)
  get_from-enough (suc f) zero n k hf hg = absurd (omega arith)
  get_from-enough (suc f) (suc g) (node p children content) k hf hg = elim (standing p k) [
    | exact r₁ r₂ s ↦ rw (r₁, r₂) refl
    | below a rest r₁ r₂ s ↦
        let shorter = strip-length p k a rest s in
        rw (r₁, r₂)
          (ap (λ visit. on_child read visit (ok none) (children a))
            (fun_ext (λ n. get_from-enough f g n rest (omega arith) (omega arith))))
    | apart x rest r s ↦ rw r refl
  ]

  unfoldable pub get_child : Key → Child → Result (Option Content)
  unfolding on_child get
  get_child k child = on_child read (λ n. get read n k) (ok none) child

  -- What a node has for what follows its prefix in a key.
  unfoldable pub at_rest : Option Content → Branch → Option Key → Result (Option Content)
  unfolding get_child
  at_rest content children none = ok none
  at_rest content children (some []) = ok content
  at_rest content children (some (a ∷ rest)) = get_child rest (children a)

  pub get-strip :
      (p : Key) (children : Branch) (content : Option Content) (k : Key)
      → get read (node p children content) k ≡ at_rest content children (strip p k)
  unfolding get get_from descend at_rest get_child
  get-strip p children content k = elim (standing p k) [
    | exact r₁ r₂ s ↦ rw (r₁, r₂, s) refl
    | below a rest r₁ r₂ s ↦
        let shorter = strip-length p k a rest s in
        rw (r₁, r₂, s)
          (ap (λ visit. on_child read visit (ok none) (children a))
            (fun_ext (λ n.
              get_from-enough (length k) (suc (length rest)) n rest (omega arith) (omega arith))))
    | apart x rest r s ↦ rw (r, s) refl
  ]
