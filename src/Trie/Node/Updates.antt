-- ===== src/Trie/Node/Updates.antt =====
-- packages/merkle-patricia-trie/src/merkle-patricia-trie/node.ts: what get finds after set and delete.
use uniqys_kit.Prelude.{
  ℕ, zero, suc, ◌≡◌, refl, sym, ap, subst, ◌∙◌, [], ◌∷◌, ◌++◌, Option, none, some, ◌==◌,
  if◌then◌else◌, arith, Result, ok, >>=-eq-ok, ok-injective, Bool-cases, inl, inr, ==→eq, ==-comm,
  ==-refl,
}
use uniqys_kit.Types.FixedBytes.{equals, equals→eq}
use uniqys_kit.Signature.{Hash}
use uniqys_kit.Trie.Keys.{
  Key, match, strip, standing, exact, below, apart, strip_more, strip-append, same, equals-same,
  is_end, equals-is_end, prefix-remain₁,
}
use uniqys_kit.Trie.Node.{
  Content, Node, node, Child, absent, of_hash, of_node, Branch, empty_branch, update, descend,
  on_child, get, set_from, as_child, delete_from,
}
use uniqys_kit.Trie.Node.Lookup.{get_child, at_rest, get-strip}

module _ (read : Hash → Result Node) where
  rest-split :
      (x : ℕ) (xs : Key) (children : Branch) (content : Option Content) (r : Option Key)
      → at_rest read none (update x (of_node (node xs children content)) empty_branch) r
        ≡ at_rest read content children (strip_more (x ∷ xs) r)
  unfolding at_rest update empty_branch get_child strip
  rest-split x xs children content none = refl
  rest-split x xs children content (some []) = refl
  rest-split x xs children content (some (a ∷ r)) = elim (Bool-cases (a == x)) [
    | inl e ↦ rw (==-comm x a, e) (get-strip read xs children content r)
    | inr e ↦ rw (==-comm x a, e) refl
  ]

  -- A node is split at a part of its prefix.
  get-split :
      (q : Key) (x : ℕ) (xs : Key) (children : Branch) (content : Option Content) (k : Key)
      → get read (node q (update x (of_node (node xs children content)) empty_branch) none) k
        ≡ get read (node (q ++ x ∷ xs) children content) k
  get-split q x xs children content k =
      get-strip read q _ none k
      ∙ rest-split x xs children content (strip q k)
      ∙ ap (at_rest read content children) (sym (strip-append q (x ∷ xs) k))
      ∙ sym (get-strip read (q ++ x ∷ xs) children content k)

  module _ (new : Option Content) where
    -- Where the key ends, the new content; elsewhere, what there was.
    rest-here :
        (old : Option Content) (children : Branch) (r : Option Key)
        → at_rest read new children r ≡ (if same [] r then ok new else at_rest read old children r)
    unfolding at_rest equals
    rest-here old children none = refl
    rest-here old children (some []) = refl
    rest-here old children (some (a ∷ r)) = refl

    abbrev Puts : Key → Child → Child → Type 0
    Puts u child child' =
        (s : Key)
        → get_child read s child' ≡ (if equals u s then ok new else get_child read s child)

    rest-below :
        (a : ℕ) (u : Key) (old : Option Content) (children : Branch) (child : Child)
        → Puts u (children a) child
        → (r : Option Key)
        → at_rest read old (update a child children) r
          ≡ (if same (a ∷ u) r then ok new else at_rest read old children r)
    unfolding at_rest equals update
    rest-below a u old children child puts none = refl
    rest-below a u old children child puts (some []) = refl
    rest-below a u old children child puts (some (b ∷ s)) = elim (Bool-cases (b == a)) [
      | inl e ↦ rw (==→eq b a e, ==-refl a) (puts s)
      | inr e ↦ rw (==-comm a b, e) refl
    ]

    rest-leaf :
        (r : Option Key) → at_rest read new empty_branch r ≡ (if is_end r then ok new else ok none)
    unfolding at_rest get_child empty_branch
    rest-leaf none = refl
    rest-leaf (some []) = refl
    rest-leaf (some (a ∷ r)) = refl

    -- What a call does to the node of a child, it does to the child.
    on_child-Puts :
        {A : Type 0} (wrap : A → Child) (visit : Node → Result A) (nothing m : A) (u : Key)
        (child : Child)
        → on_child read visit (ok nothing) child ≡ ok m
        → ((n : Node) (n' : A) → visit n ≡ ok n' → Puts u (of_node n) (wrap n'))
        → Puts u absent (wrap nothing)
        → Puts u child (wrap m)
    unfolding on_child get_child
    on_child-Puts wrap visit nothing m u absent h each leaf s = rw (← ok-injective h) (leaf s)
    on_child-Puts wrap visit nothing m u (of_node n) h each leaf s = each n m h s
    on_child-Puts wrap visit nothing m u (of_hash hash) h each leaf s =
        let (n, e, e') = >>=-eq-ok (read hash) visit h in rw e (each n m e' s)

    abbrev pub Becomes : Node → Key → Node → Type 0
    Becomes n k n' = (j : Key) → get read n' j ≡ (if equals k j then ok new else get read n j)

    here-Becomes :
        (p : Key) (children : Branch) (old : Option Content) (k : Key)
        → strip p k ≡ some []
        → Becomes (node p children old) k (node p children new)
    here-Becomes p children old k s j =
        rw
          (equals-same p k j [] s, get-strip read p children new j, get-strip read p children old j)
          (rest-here old children (strip p j))

    below-Becomes :
        (p : Key) (children : Branch) (old : Option Content) (k : Key) (a : ℕ) (u : Key)
        (child : Child)
        → strip p k ≡ some (a ∷ u)
        → Puts u (children a) child
        → Becomes (node p children old) k (node p (update a child children) old)
    below-Becomes p children old k a u child s puts j =
        rw
          (
            equals-same p k j (a ∷ u) s,
            get-strip read p (update a child children) old j,
            get-strip read p children old j,
          )
          (rest-below a u old children child puts (strip p j))

    of_node-Puts :
        (n : Node) (u : Key) (n' : Node) → Becomes n u n' → Puts u (of_node n) (of_node n')
    unfolding get_child
    of_node-Puts n u n' h = h

    leaf-Puts : (u : Key) → Puts u absent (of_node (node u empty_branch new))
    unfolding get_child
    leaf-Puts u s =
        rw (get-strip read u empty_branch new s, equals-is_end u s) (rest-leaf (strip u s))

  pub set_from-get :
      (fuel : ℕ) (n : Node) (k : Key) (content : Content) (n' : Node)
      → set_from read fuel n k content ≡ ok n'
      → Becomes (some content) n k n'
  unfolding set_from descend
  set_from-get zero n k content n' h = cc
  set_from-get (suc fuel) (node p children old) k content n' h = elim (standing p k) [
    | exact r₁ r₂ s ↦
        subst (Becomes (some content) (node p children old) k) (ok-injective (rw (r₁, r₂) at h))
          (here-Becomes (some content) p children old k s)
    | below a u r₁ r₂ s ↦
        let (m, e, e') =
          >>=-eq-ok
            (on_child read (λ n. set_from read fuel n u content)
              (ok (node u empty_branch (some content))) (children a))
            (λ child. ok (node p (update a (of_node child) children) old)) (rw (r₁, r₂) at h) in
        subst (Becomes (some content) (node p children old) k) (ok-injective e') (
          below-Becomes (some content) p children old k a u (of_node m) s (
            on_child-Puts (some content) of_node (λ n. set_from read fuel n u content) _ m u
              (children a) e
              (λ n n' h. of_node-Puts (some content) n u n' (set_from-get fuel n u content n' h))
              (leaf-Puts (some content) u)))
    | apart x xs r s ↦
        let shared = (match p k).prefix in
        λ j.
          subst
            (λ q.
              get read n' j
              ≡ (if equals k j then ok (some content) else get read (node q children old) j))
            (subst (λ t. shared ++ t ≡ p) r (prefix-remain₁ p k))
            (subst (λ t. get read n' j ≡ (if equals k j then ok (some content) else t))
              (get-split shared x xs children old j)
              (set_from-get fuel _ k content n' (rw r at h) j))
  ]

  nothing-Puts : (u : Key) → Puts none u absent absent
  unfolding get_child on_child
  nothing-Puts u s = ground arith

  -- A key that does not start with the prefix has no content.
  apart-Becomes :
      (p : Key) (children : Branch) (old : Option Content) (k : Key)
      → strip p k ≡ none
      → Becomes none (node p children old) k (node p children old)
  unfolding at_rest
  apart-Becomes p children old k s j = elim (Bool-cases (equals k j)) [
    | inl e ↦ rw (e, ← equals→eq k j e, get-strip read p children old k, s) refl
    | inr e ↦ rw e refl
  ]

  pub delete_from-get :
      (fuel : ℕ) (n : Node) (k : Key) (n' : Node)
      → delete_from read fuel n k ≡ ok n'
      → Becomes none n k n'
  unfolding delete_from descend
  delete_from-get zero n k n' h = cc
  delete_from-get (suc fuel) (node p children old) k n' h = elim (standing p k) [
    | exact r₁ r₂ s ↦
        subst (Becomes none (node p children old) k) (ok-injective (rw (r₁, r₂) at h))
          (here-Becomes none p children old k s)
    | below a u r₁ r₂ s ↦
        let visit : Node → Result Child = λ n. as_child read (delete_from read fuel n u) in
        let (m, e, e') =
          >>=-eq-ok (on_child read visit (ok absent) (children a))
            (λ child. ok (node p (update a child children) old)) (rw (r₁, r₂) at h) in
        subst (Becomes none (node p children old) k) (ok-injective e') (
          below-Becomes none p children old k a u m s (
            on_child-Puts none (λ c. c) visit absent m u (children a) e
              (λ n c h.
                let (n', e, e') = >>=-eq-ok (delete_from read fuel n u) (λ n. ok (of_node n)) h in
                subst (Puts none u (of_node n)) (ok-injective e')
                  (of_node-Puts none n u n' (delete_from-get fuel n u n' e)))
              (nothing-Puts u)))
    | apart x xs r s ↦
        subst (Becomes none (node p children old) k) (ok-injective (rw r at h))
          (apart-Becomes p children old k s)
  ]
