-- ===== src/ChainCore/Nodes/Best.antt =====
-- packages/chain-core/src/remote-node.ts: what is picked is right.
use uniqys_kit.Prelude.{
  ℕ, zero, suc, ◌≤◌, ◌≡◌, refl, subst, Bool, true, List, [], ◌∷◌, Option, none, some, ltb, length,
  take, get_elem?, All, arith, Bool-cases, inl, inr, ◌==◌,
}
use uniqys_kit.ChainCore.Nodes.{
  RemoteNode, better, best_from, best_node, filter, put, exchange, exchange_found, shuffle,
  pick_randomly,
}

-- Every node is at most as high.
abbrev IsHighest : RemoteNode → List RemoteNode → Type 0
IsHighest best nodes = All (λ n. n.height ≤ best.height) nodes

best_from-lem :
    (best : RemoteNode) (nodes : List RemoteNode)
    → (r : RemoteNode) × (best_from (some best) nodes ≡ some r)
      × (best.height ≤ r.height)
      × IsHighest r nodes
unfolding best_from better
best_from-lem best [] = (best, refl, omega arith, tt)
best_from-lem best (n ∷ nodes) = elim (Bool-cases (ltb best.height n.height)) [
  | inl h ↦
      let (r, e, above, all) = best_from-lem n nodes in (r, rw h e, ground arith, (above, all))
  | inr h ↦
      let (r, e, above, all) = best_from-lem best nodes in (r, rw h e, above, (ground arith, all))
]

-- bestNode gives a node as high as any, if there is one.
best_node-IsHighest :
    (n : RemoteNode) (nodes : List RemoteNode)
    → (r : RemoteNode) × (best_node (n ∷ nodes) ≡ some r) × IsHighest r (n ∷ nodes)
unfolding best_node best_from better
best_node-IsHighest n nodes = let (r, e, above, all) = best_from-lem n nodes in (r, e, (above, all))

module _ (condition : RemoteNode → Bool) where
  abbrev Meets : List RemoteNode → Type 0
  Meets nodes = All (λ n. condition n ≡ true) nodes

  filter-Meets : (nodes : List RemoteNode) → Meets (filter condition nodes)
  unfolding filter
  filter-Meets [] = tt
  filter-Meets (n ∷ nodes) = elim (Bool-cases (condition n)) [
    | inl e ↦ rw e (e, filter-Meets nodes)
    | inr e ↦ rw e (filter-Meets nodes)
  ]

  put-Meets :
      (i : ℕ) (node : RemoteNode) (nodes : List RemoteNode)
      → condition node ≡ true
      → Meets nodes
      → Meets (put i node nodes)
  unfolding put
  put-Meets zero node [] e m = tt
  put-Meets (suc i) node [] e m = tt
  put-Meets zero node (n ∷ nodes) e (h, m) = (e, m)
  put-Meets (suc i) node (n ∷ nodes) e (h, m) = (h, put-Meets i node nodes e m)

  get_elem-Meets :
      (i : ℕ) (nodes : List RemoteNode) (n : RemoteNode)
      → Meets nodes
      → get_elem? nodes i ≡ some n
      → condition n ≡ true
  get_elem-Meets i [] n m e = cc
  get_elem-Meets zero (a ∷ nodes) n (h, m) e =
      (let is : a ≡ n = cc in subst (λ t. condition t ≡ true) is h)
  get_elem-Meets (suc i) (a ∷ nodes) n (h, m) e = get_elem-Meets i nodes n m e

  exchange_found-Meets :
      (i r : ℕ) (a b : Option RemoteNode) (nodes : List RemoteNode)
      → ((n : RemoteNode) → a ≡ some n → condition n ≡ true)
      → ((n : RemoteNode) → b ≡ some n → condition n ≡ true)
      → Meets nodes
      → Meets (exchange_found i r a b nodes)
  unfolding exchange_found
  exchange_found-Meets i r (some a) (some b) nodes ha hb m =
      put-Meets r a (put i b nodes) (ha a refl) (put-Meets i b nodes (hb b refl) m)
  exchange_found-Meets i r (some a) none nodes ha hb m = m
  exchange_found-Meets i r none b nodes ha hb m = m

  exchange-Meets : (i r : ℕ) (nodes : List RemoteNode) → Meets nodes → Meets (exchange i r nodes)
  unfolding exchange
  exchange-Meets i r nodes m =
      exchange_found-Meets i r (get_elem? nodes i) (get_elem? nodes r) nodes
        (λ n. get_elem-Meets i nodes n m) (λ n. get_elem-Meets r nodes n m) m

  shuffle-Meets :
      (random : ℕ → ℕ) (n : ℕ) (nodes : List RemoteNode)
      → Meets nodes
      → Meets (shuffle random n nodes)
  unfolding shuffle
  shuffle-Meets random zero nodes m = m
  shuffle-Meets random (suc n) nodes m =
      exchange-Meets n (random n) _ (shuffle-Meets random n nodes m)

  take-Meets : (n : ℕ) (nodes : List RemoteNode) → Meets nodes → Meets (take n nodes)
  take-Meets zero nodes m = tt
  take-Meets (suc n) [] m = tt
  take-Meets (suc n) (a ∷ nodes) (h, m) = (h, take-Meets n nodes m)

  -- Whatever is drawn, the nodes that are picked meet the condition.
  pick_randomly-Meets :
      (random rate : ℕ → ℕ) (nodes : List RemoteNode)
      → Meets (pick_randomly random rate condition nodes)
  unfolding pick_randomly
  pick_randomly-Meets random rate nodes =
      let candidates = filter condition nodes in
      elim (Bool-cases (length candidates == 0)) [
        | inl e ↦ rw e tt
        | inr e ↦ elim (Bool-cases (rate (length candidates) == length candidates)) [
          | inl e' ↦ rw (e, e') (filter-Meets nodes)
          | inr e' ↦
              rw (e, e')
                (take-Meets (rate (length candidates)) _
                  (shuffle-Meets random (rate (length candidates)) candidates (filter-Meets nodes)))
        ]
      ]
