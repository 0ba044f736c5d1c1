-- ===== src/ChainCore/Nodes.antt =====
-- packages/chain-core/src/remote-node.ts: RemoteNode and RemoteNodeSet. The nodes stand in the order of
-- the Map. The events are left out, and so are the rates that use powers of a fraction.
pub mod Best
use uniqys_kit.Prelude.{
  ℕ, zero, suc, ◌+◌, ◌-◌, ◌==◌, Bool, true, false, ◌&&◌, not, List, [], ◌∷◌, ◌++◌, Option, none,
  some, if◌then◌else◌, ltb, leb, length, take, get_elem?, get_or,
}
use uniqys_kit.Types.FixedBytes.{Bytes, equals}

pub record RemoteNode : Type 0 where
  pub peer_id : Bytes
  pub height : ℕ
  pub is_idle : Bool

abbrev pub consensus_height : RemoteNode → ℕ
consensus_height n = n.height + 1

-- Map.set: a node with a known id takes the place of the old one.
unfoldable pub add : RemoteNode → List RemoteNode → List RemoteNode
add node [] = node ∷ []
add node (n ∷ nodes) =
    let rest = add node nodes in if equals n.peer_id node.peer_id then node ∷ nodes else n ∷ rest

unfoldable pub get : Bytes → List RemoteNode → Option RemoteNode
get peer_id [] = none
get peer_id (n ∷ nodes) =
    let rest = get peer_id nodes in if equals n.peer_id peer_id then some n else rest

unfoldable pub delete : Bytes → List RemoteNode → List RemoteNode
delete peer_id [] = []
delete peer_id (n ∷ nodes) =
    let rest = delete peer_id nodes in if equals n.peer_id peer_id then nodes else n ∷ rest

-- One turn of the loop of bestNode.
unfoldable pub better : Option RemoteNode → RemoteNode → RemoteNode
better none node = node
better (some best) node = if ltb best.height node.height then node else best

unfoldable pub best_from : Option RemoteNode → List RemoteNode → Option RemoteNode
unfolding better
best_from best [] = best
best_from best (n ∷ nodes) = best_from (some (better best n)) nodes

unfoldable pub best_node : List RemoteNode → Option RemoteNode
unfolding best_from
best_node nodes = best_from none nodes

unfoldable pub filter : (RemoteNode → Bool) → List RemoteNode → List RemoteNode
filter condition [] = []
filter condition (n ∷ nodes) =
    let rest = filter condition nodes in if condition n then n ∷ rest else rest

-- `candidates[i] = node`, inside the array.
unfoldable pub put : ℕ → RemoteNode → List RemoteNode → List RemoteNode
put i node [] = []
put zero node (n ∷ nodes) = node ∷ nodes
put (suc i) node (n ∷ nodes) = n ∷ put i node nodes

-- The nodes at i and at r, which are inside the array.
unfoldable pub exchange_found :
    ℕ → ℕ → Option RemoteNode → Option RemoteNode → List RemoteNode → List RemoteNode
unfolding put
exchange_found i r (some a) (some b) nodes = put r a (put i b nodes)
exchange_found i r (some a) none nodes = nodes
exchange_found i r none b nodes = nodes

unfoldable pub exchange : ℕ → ℕ → List RemoteNode → List RemoteNode
unfolding exchange_found
exchange i r nodes = exchange_found i r (get_elem? nodes i) (get_elem? nodes r) nodes

-- The Fisher–Yates shuffle of the first nodes; `random i` is the index that is drawn in turn i.
unfoldable pub shuffle : (ℕ → ℕ) → ℕ → List RemoteNode → List RemoteNode
unfolding exchange
shuffle random zero nodes = nodes
shuffle random (suc n) nodes = exchange n (random n) (shuffle random n nodes)

unfoldable pub pick_randomly :
    (ℕ → ℕ) → (ℕ → ℕ) → (RemoteNode → Bool) → List RemoteNode → List RemoteNode
unfolding filter shuffle
pick_randomly random rate condition nodes =
    let candidates = filter condition nodes in
    let all = length candidates in
    if all == 0
    then []
    else if rate all == all
    then candidates
    else take (rate all) (shuffle random (rate all) candidates)

abbrev pub everyone : ℕ → ℕ
everyone all = all

unfoldable pub pick_transaction_receivers : (ℕ → ℕ) → List RemoteNode → List RemoteNode
unfolding pick_randomly
pick_transaction_receivers random nodes = pick_randomly random everyone (λ n. true) nodes

unfoldable pub pick_block_receivers : (ℕ → ℕ) → ℕ → List RemoteNode → List RemoteNode
unfolding pick_randomly
pick_block_receivers random height nodes =
    pick_randomly random everyone (λ n. ltb n.height height) nodes

unfoldable pub pick_consensus_receivers : (ℕ → ℕ) → ℕ → List RemoteNode → List RemoteNode
unfolding pick_randomly
pick_consensus_receivers random height nodes =
    pick_randomly random everyone (λ n. consensus_height n == height) nodes

abbrev pub first : List RemoteNode → Option RemoteNode
first [] = none
first (n ∷ nodes) = some n

unfoldable pub pick_provider : (ℕ → ℕ) → ℕ → List RemoteNode → Option RemoteNode
unfolding pick_randomly
pick_provider random height nodes =
    first (pick_randomly random (λ all. 1) (λ n. leb height n.height) nodes)

unfoldable pub pick_idle_provider : (ℕ → ℕ) → ℕ → List RemoteNode → Option RemoteNode
unfolding pick_randomly
pick_idle_provider random height nodes =
    first (pick_randomly random (λ all. 1) (λ n. leb height n.height && n.is_idle) nodes)
