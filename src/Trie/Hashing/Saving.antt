-- ===== src/Trie/Hashing/Saving.antt =====
-- packages/merkle-patricia-trie/src/merkle-patricia-trie/node.ts: save and the hash of a node, which
-- leaves out the prefix.
use uniqys_kit.Prelude.{
  ℕ, zero, suc, ◌<◌, ◌≡◌, refl, sym, ap, subst, ◌∙◌, List, ◌++◌, Option, ◌==◌, ==→eq, arith, Result,
  ok, ◌>>=◌, >>=-eq-ok, ok-injective, Bool-cases, inl, inr,
}
use uniqys_kit.Signature.{Crypto, Hash}
use uniqys_kit.Signature.Keys.{from_data}
use uniqys_kit.Trie.Keys.{Key}
use uniqys_kit.Trie.Node.{Content, Node, node, Child, absent, of_hash, of_node, Branch, update}
use uniqys_kit.Trie.Hashing.{joined, optional_bytes, hash, child_hash, each_child, save, save_child}

joined-cong :
    {A : Type 0} (n : ℕ) (f g : ℕ → Result (List A))
    → ((i : ℕ) → i < n → f i ≡ g i)
    → joined n f ≡ joined n g
unfolding joined
joined-cong zero f g same = refl
joined-cong (suc n) f g same =
    rw (joined-cong n f g (λ i h. same i (omega arith)), same n (omega arith)) refl

abbrev pub prefix_of : Node → Key
prefix_of (node prefix children content) = prefix

module _ (c : Crypto) {State : Type 0} (write : Hash → Node → State → Result State) where
  -- Each of the first children is what its visit returned.
  each_child-at :
      (n : ℕ) (visit : ℕ → State → Result (Child × State)) (s s' : State) (saved : Branch)
      → each_child c write n visit s ≡ ok (saved, s')
      → (i : ℕ) → i < n
      → (t : State) × (t' : State) × (visit i t ≡ ok (saved i, t'))
  unfolding each_child update
  each_child-at zero visit s s' saved h i small = absurd (omega arith)
  each_child-at (suc n) visit s s' saved h i small =
      let ((before, s₁), e, h₁) =
        >>=-eq-ok (each_child c write n visit s)
          (λ (before, s₁). do (child, s₂) ← visit n s₁; ok (update n child before, s₂)) h in
      let ((child, s₂), e', h₂) =
        >>=-eq-ok (visit n s₁) (λ (child, s₂). ok (update n child before, s₂)) h₁ in
      let is : update n child before ≡ saved = ap (λ t. t.0) (ok-injective h₂) in
      subst (λ b. (t : State) × (t' : State) × (visit i t ≡ ok (b i, t'))) is
        (elim (Bool-cases (i == n)) [
          | inl last ↦ (s₁, s₂, rw last (rw (==→eq i n last) e'))
          | inr other ↦
              let (t, t', at) = each_child-at n visit s s₁ before e i (ground arith) in
              (t, t', rw other at)
        ])

  -- What save makes: the saved children under the same prefix.
  save-node :
      (p : Key) (children : Branch) (content : Option Content) (s s' : State) (m : Node)
      → save c write (node p children content) s ≡ ok (m, s')
      → (saved : Branch) × (h : Hash) × (s₁ : State) × (each_child c write 16
            (λ i t. save_child c write (children i) t)
            s
          ≡ ok (saved, s₁))
        × (hash c m ≡ ok h)
        × (write h m s₁ ≡ ok s')
        × (m ≡ node p saved content)
  unfolding save
  save-node p children content s s' m e =
      let ((saved, s₁), e₁, h₁) =
        >>=-eq-ok (each_child c write 16 (λ i t. save_child c write (children i) t) s)
          (λ (saved, s₁). do
            h ← hash c (node p saved content)
            s₂ ← write h (node p saved content) s₁
            ok (node p saved content, s₂))
          e in
      let (h, e₂, h₂) =
        >>=-eq-ok (hash c (node p saved content))
          (λ h. do s₂ ← write h (node p saved content) s₁; ok (node p saved content, s₂)) h₁ in
      let (s₂, e₃, h₃) =
        >>=-eq-ok (write h (node p saved content) s₁) (λ s₂. ok (node p saved content, s₂)) h₂ in
      let is : node p saved content ≡ m = ap (λ t. t.0) (ok-injective h₃) in
      let last : s₂ ≡ s' = ap (λ t. t.1) (ok-injective h₃) in
      (
        saved,
        h,
        s₁,
        e₁,
        ap (hash c) (sym is) ∙ e₂,
        subst (λ t. write h t s₁ ≡ ok s') is (e₃ ∙ ap ok last),
        sym is,
      )

  mutual
    unfolding hash save

    -- A reference to a saved node is the hash of the node.
    save-hash : (n m : Node) (s s' : State) → save c write n s ≡ ok (m, s') → hash c m ≡ hash c n
    save-hash (node p children content) m s s' e =
        let (saved, h, s₁, e₁, hashed, written, is) = save-node p children content s s' m e in
        rw is (
          ap
            (λ r. do hashes ← r; rest ← optional_bytes c content; ok (from_data c (hashes ++ rest)))
            (joined-cong 16 (λ i. child_hash c (saved i)) (λ i. child_hash c (children i))
              (λ i small.
                let (t, t', at) =
                  each_child-at 16 (λ i t. save_child c write (children i) t) s s₁ saved e₁ i
                    small in
                save_child-hash (children i) (saved i) t t' at)))

    save_child-hash :
        (child m : Child) (s s' : State)
        → save_child c write child s ≡ ok (m, s')
        → child_hash c m ≡ child_hash c child
    save_child-hash absent m s s' e = ap (child_hash c) (sym (ap (λ t. t.0) (ok-injective e)))
    save_child-hash (of_hash h) m s s' e = ap (child_hash c) (sym (ap (λ t. t.0) (ok-injective e)))
    save_child-hash (of_node n) m s s' e =
        let ((saved, s₁), e₁, h₁) =
          >>=-eq-ok (save c write n s) (λ (saved, s₁). do h ← hash c saved; ok (of_hash h, s₁)) e in
        let (h, e₂, h₂) = >>=-eq-ok (hash c saved) (λ h. ok (of_hash h, s₁)) h₁ in
        ap (child_hash c) (sym (ap (λ t. t.0) (ok-injective h₂)))
        ∙ sym e₂
        ∙ save-hash n saved s s₁ e₁

  -- Of two nodes that differ in the prefix alone, the first is read under its hash once it is
  -- saved, but whenever the second has been saved, in whatever state, that hash leads to the
  -- second, whose prefix is the other one. The store reads what was written last.
  pub save-replaces :
      (read : Hash → State → Result Node)
      → ((h : Hash) (n : Node) (s s' : State) → write h n s ≡ ok s' → read h s' ≡ ok n)
      → (p q : Key) (children : Branch) (content : Option Content) (first second : Node)
        (s s₁ s₂ s₃ : State)
      → save c write (node p children content) s ≡ ok (first, s₁)
      → save c write (node q children content) s₂ ≡ ok (second, s₃)
      → (h : Hash) × (hash c first ≡ ok h)
        × (read h s₁ ≡ ok first)
        × (read h s₃ ≡ ok second)
        × (prefix_of first ≡ p)
        × (prefix_of second ≡ q)
  unfolding hash
  save-replaces read read-write p q children content first second s s₁ s₂ s₃ e e' =
      let (a₁, h, t, d₁, hashed, written, is) = save-node p children content s s₁ first e in
      let (a₂, h', t', d₂, hashed', written', is') = save-node q children content s₂ s₃ second e' in
      let equal : ok h ≡ ok h' =
        sym hashed
        ∙ save-hash (node p children content) first s s₁ e
        ∙ sym (save-hash (node q children content) second s₂ s₃ e')
        ∙ hashed' in
      (
        h,
        hashed,
        read-write h first t s₁ written,
        subst (λ r. read r s₃ ≡ ok second) (sym (ok-injective equal))
            (read-write h' second t' s₃ written'),
        ap prefix_of is,
        ap prefix_of is',
      )
