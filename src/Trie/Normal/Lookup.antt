-- ===== src/Trie/Normal/Lookup.antt =====
-- packages/merkle-patricia-trie/src/merkle-patricia-trie/node.ts: normalize keeps what get finds.
use uniqys_kit.Prelude.{
  ℕ, zero, suc, ◌<◌, ◌≡◌, refl, sym, ap, subst, ◌∙◌, List, [], ◌∷◌, ◌++◌, append-nil, All, Option,
  none, some, ◌==◌, ==→eq, ==-comm, arith, Result, ok, ◌>>=◌, >>=-eq-ok, ok-injective, false,
  Bool-cases, ◌⊎◌, inl, inr,
}
use uniqys_kit.Signature.{Hash}
use uniqys_kit.Trie.Keys.{Key, strip, strip_more, strip-append, strip-All}
use uniqys_kit.Trie.Node.{
  Content, Node, node, Child, absent, of_hash, of_node, Branch, update, on_child, get,
}
use uniqys_kit.Trie.Node.Lookup.{get_child, at_rest, get-strip}
use uniqys_kit.Trie.Normal.{
  present, existing, collect, as_reference, behind, contract, normalize, normalize_child,
}

Child-cases : (child : Child) → (child ≡ absent) ⊎ ((i : ℕ) → present i child ≡ (i, child) ∷ [])
unfolding present
Child-cases absent = inl refl
Child-cases (of_hash h) = inr (λ i. refl)
Child-cases (of_node n) = inr (λ i. refl)

snoc-not_empty : {A : Type 0} (xs : List A) (x : A) → xs ++ x ∷ [] ≡ [] → ⊥
snoc-not_empty [] x h = cc
snoc-not_empty (y ∷ xs) x h = cc

snoc-single : {A : Type 0} (xs : List A) (x y : A) → xs ++ x ∷ [] ≡ y ∷ [] → (xs ≡ []) × (x ≡ y)
snoc-single [] x y h = (refl, cc)
snoc-single (z ∷ xs) x y h =
    (let rest : xs ++ x ∷ [] ≡ [] = cc in absurd (snoc-not_empty xs x rest))

existing-nil :
    (n : ℕ) (children : Branch) → existing n children ≡ [] → (i : ℕ) → i < n → children i ≡ absent
unfolding existing
existing-nil zero children h i small = absurd (omega arith)
existing-nil (suc n) children h i small = elim (Child-cases (children n)) [
  | inl none_ ↦ elim (Bool-cases (i == n)) [
    | inl last ↦ rw (==→eq i n last) none_
    | inr other ↦
        existing-nil n children
          (sym (append-nil (existing n children))
            ∙ sym (ap (λ c. existing n children ++ present n c) none_)
            ∙ h)
          i (ground arith)
  ]
  | inr there ↦ absurd (snoc-not_empty (existing n children) (n, children n) (rw (there n) at h))
]

pub existing-single :
    (n : ℕ) (children : Branch) (index : ℕ) (ref : Child)
    → existing n children ≡ (index, ref) ∷ []
    → (children index ≡ ref) × ((i : ℕ) → i < n → (i == index) ≡ false → children i ≡ absent)
unfolding existing
existing-single zero children index ref h = cc
existing-single (suc n) children index ref h = elim (Child-cases (children n)) [
  | inl none_ ↦
      let (found, others) = existing-single n children index ref (
        sym (append-nil (existing n children))
        ∙ sym (ap (λ c. existing n children ++ present n c) none_)
        ∙ h) in
      (
        found,
        λ i small differs. elim (Bool-cases (i == n)) [
          | inl last ↦ rw (==→eq i n last) none_
          | inr other ↦ others i (ground arith) differs
        ],
      )
  | inr there ↦
      let (rest, is) =
        snoc-single (existing n children) (n, children n) (index, ref) (rw (there n) at h) in
      let at : n ≡ index = ap (λ t. t.0) is in
      (
        ap children (sym at) ∙ ap (λ t. t.1) is,
        λ i small differs.
            let other : (i == n) ≡ false = subst (λ t. (i == t) ≡ false) (sym at) differs in
            existing-nil n children rest i (ground arith),
      )
]

collect-at :
    (n : ℕ) (visit : ℕ → Result Child) (children : Branch)
    → collect n visit ≡ ok children
    → (i : ℕ) → i < n
    → visit i ≡ ok (children i)
unfolding collect update
collect-at zero visit children h i small = absurd (omega arith)
collect-at (suc n) visit children h i small =
    let (before, e, h₁) =
      >>=-eq-ok (collect n visit) (λ before. do child ← visit n; ok (update n child before)) h in
    let (child, e', h₂) = >>=-eq-ok (visit n) (λ child. ok (update n child before)) h₁ in
    let found : visit i ≡ ok (update n child before i) = elim (Bool-cases (i == n)) [
      | inl last ↦ rw last (rw (==→eq i n last) e')
      | inr other ↦ rw other (collect-at n visit before e i (ground arith))
    ] in
    found ∙ ap (λ b. ok (b i)) (ok-injective h₂)

module _ (read : Hash → Result Node) where
  -- What get finds behind a root that may be gone.
  abbrev pub get_root : Key → Option Node → Result (Option Content)
  get_root k none = ok none
  get_root k (some n) = get read n k

  abbrev pub InRange : Key → Type 0
  InRange k = All (λ a. a < 16) k

  -- No child, and so no content below.
  rest-empty :
      (children : Branch) (r : Option Key)
      → ((i : ℕ) → i < 16 → children i ≡ absent)
      → ((a : ℕ) (u : Key) → r ≡ some (a ∷ u) → a < 16)
      → at_rest read none children r ≡ ok none
  unfolding at_rest get_child on_child
  rest-empty children none gone small = refl
  rest-empty children (some []) gone small = refl
  rest-empty children (some (a ∷ u)) gone small = rw (gone a (small a u refl)) refl

  -- The only child in the place of its parent.
  rest-behind :
      (children : Branch) (index : ℕ) (q : Key) (below : Branch) (content : Option Content)
      (r : Option Key)
      → ((u : Key) → get_child read u (children index) ≡ at_rest read content below (strip q u))
      → ((i : ℕ) → i < 16 → (i == index) ≡ false → children i ≡ absent)
      → ((a : ℕ) (u : Key) → r ≡ some (a ∷ u) → a < 16)
      → at_rest read content below (strip_more (index ∷ q) r) ≡ at_rest read none children r
  unfolding at_rest get_child on_child strip
  rest-behind children index q below content none child gone small = refl
  rest-behind children index q below content (some []) child gone small = refl
  rest-behind children index q below content (some (a ∷ u)) child gone small =
      elim (Bool-cases (a == index)) [
        | inl e ↦ rw (==-comm index a, e) (rw (==→eq a index e) (sym (child u)))
        | inr e ↦ rw (==-comm index a, e, gone a (small a u refl) e) refl
      ]

  behind-get :
      (p : Key) (index : ℕ) (n : Node) (children : Branch) (k : Key)
      → InRange k
      → ((u : Key) → get_child read u (children index) ≡ get read n u)
      → ((i : ℕ) → i < 16 → (i == index) ≡ false → children i ≡ absent)
      → get read (behind p index n) k ≡ get read (node p children none) k
  unfolding behind
  behind-get p index (node q below content) children k small child gone =
      get-strip read (p ++ index ∷ q) below content k
      ∙ ap (at_rest read content below) (strip-append p (index ∷ q) k)
      ∙ rest-behind children index q below content (strip p k)
          (λ u. child u ∙ get-strip read q below content u) gone
          (λ a u e. (strip-All p k a u e small).0)
      ∙ sym (get-strip read p children none k)

  as_reference-get : (k : Key) (r : Option Node) → get_child read k (as_reference r) ≡ get_root k r
  unfolding as_reference get_child on_child
  as_reference-get k none = refl
  as_reference-get k (some n) = refl

  rest-children :
      (children' children : Branch) (content : Option Content) (r : Option Key)
      → ((a : ℕ) (u : Key)
          → a < 16
          → InRange u
          → get_child read u (children' a) ≡ get_child read u (children a))
      → ((a : ℕ) (u : Key) → r ≡ some (a ∷ u) → (a < 16) × InRange u)
      → at_rest read content children' r ≡ at_rest read content children r
  unfolding at_rest
  rest-children children' children content none each small = refl
  rest-children children' children content (some []) each small = refl
  rest-children children' children content (some (a ∷ u)) each small =
      let (below_16, small') = small a u refl in each a u below_16 small'

  only-get :
      (p : Key) (children : Branch) (r : Option Node) (k : Key) (index : ℕ) (ref : Child)
      → InRange k
      → children index ≡ ref
      → ((i : ℕ) → i < 16 → (i == index) ≡ false → children i ≡ absent)
      → on_child read (λ n. ok (some (behind p index n))) (ok none) ref ≡ ok r
      → get_root k r ≡ get read (node p children none) k
  unfolding on_child get_child
  only-get p children r k index absent small is gone h =
      ap (get_root k) (sym (ok-injective h))
      ∙ sym (
          get-strip read p children none k
          ∙ rest-empty children (strip p k)
              (λ i below_16. elim (Bool-cases (i == index)) [
                | inl e ↦ rw (==→eq i index e) is
                | inr e ↦ gone i below_16 e
              ])
              (λ a u e. (strip-All p k a u e small).0))
  only-get p children r k index (of_node n) small is gone h =
      ap (get_root k) (sym (ok-injective h))
      ∙ behind-get p index n children k small (λ u. ap (get_child read u) is) gone
  only-get p children r k index (of_hash hash) small is gone h =
      let (n, e, h') = >>=-eq-ok (read hash) (λ n. ok (some (behind p index n))) h in
      ap (get_root k) (sym (ok-injective h'))
      ∙ behind-get p index n children k small
          (λ u. ap (get_child read u) is ∙ ap (λ t. t >>= λ n. get read n u) e) gone

  contract-get :
      (p : Key) (children : Branch) (content : Option Content) (r : Option Node) (k : Key)
      (refs : List (ℕ × Child))
      → InRange k
      → existing 16 children ≡ refs
      → contract read p children content refs ≡ ok r
      → get_root k r ≡ get read (node p children content) k
  unfolding contract
  contract-get p children (some content) r k refs small there h =
      ap (get_root k) (sym (ok-injective h))
  contract-get p children none r k [] small there h =
      ap (get_root k) (sym (ok-injective h))
      ∙ sym (
          get-strip read p children none k
          ∙ rest-empty children (strip p k) (existing-nil 16 children there)
              (λ a u e. (strip-All p k a u e small).0))
  contract-get p children none r k ((index, ref) ∷ []) small there h =
      let (is, gone) = existing-single 16 children index ref there in
      only-get p children r k index ref small is gone h
  contract-get p children none r k (first ∷ second ∷ refs) small there h =
      ap (get_root k) (sym (ok-injective h))

  mutual
    unfolding normalize get_child as_reference

    pub normalize-get :
        (n : Node) (r : Option Node)
        → normalize read n ≡ ok r
        → (k : Key) → InRange k
        → get_root k r ≡ get read n k
    normalize-get (node p children content) r h k small =
        let (children', e, h') =
          >>=-eq-ok (collect 16 (λ i. normalize_child read (children i)))
            (λ normalized. contract read p normalized content (existing 16 normalized)) h in
        contract-get p children' content r k (existing 16 children') small refl h'
        ∙ get-strip read p children' content k
        ∙ rest-children children' children content (strip p k)
            (λ a u below_16 small'.
              normalize_child-get (children a) (children' a)
                (collect-at 16 (λ i. normalize_child read (children i)) children' e a below_16) u
                small')
            (λ a u e. strip-All p k a u e small)
        ∙ sym (get-strip read p children content k)

    normalize_child-get :
        (child child' : Child)
        → normalize_child read child ≡ ok child'
        → (k : Key) → InRange k
        → get_child read k child' ≡ get_child read k child
    normalize_child-get absent child' h k small = ap (get_child read k) (sym (ok-injective h))
    normalize_child-get (of_hash hash) child' h k small =
        ap (get_child read k) (sym (ok-injective h))
    normalize_child-get (of_node n) child' h k small =
        let (r, e, h') = >>=-eq-ok (normalize read n) (λ r. ok (as_reference r)) h in
        ap (get_child read k) (sym (ok-injective h'))
        ∙ as_reference-get k r
        ∙ normalize-get n r e k small
