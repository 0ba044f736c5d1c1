-- ===== src/Trie/Node.antt =====
-- packages/merkle-patricia-trie/src/merkle-patricia-trie/node.ts: nodes and what they read. The 16
-- children of a node are a function of the alphabet. An iteration on keys has fuel.
pub mod Lookup
pub mod Readable
pub mod Updates
pub mod Total
use uniqys_kit.Prelude.{
  ℕ, zero, suc, ◌+◌, List, [], ◌∷◌, ◌++◌, Option, none, some, ◌==◌, if◌then◌else◌, length, Result,
  ok, err, ◌>>=◌, out_of_fuel,
}
use uniqys_kit.Types.FixedBytes.{Bytes}
use uniqys_kit.Signature.{Hash}
use uniqys_kit.Trie.Keys.{Key, match}

pub record Content : Type 0 where
  pub key : Bytes
  pub value : Bytes

-- A child is an Optional of a NodeRef.
mutual
  pub data Node : Type 0 where
    node : Key → (ℕ → Child) → Option Content → Node

  pub data Child : Type 0 where
    absent : Child
    of_hash : Hash → Child
    of_node : Node → Child

abbrev pub Branch : Type 0
Branch = ℕ → Child

-- emptyBranch
unfoldable pub empty_branch : Branch
empty_branch i = absent

-- Node.null
abbrev pub null : Node
null = node [] empty_branch none

-- A copy of the children with `children[i] = child`.
unfoldable pub update : ℕ → Child → Branch → Branch
update i child children j = if j == i then child else children j

-- What to do with a key: `here` where the prefix is all of it, `below` where more follows the
-- prefix, `apart` where the prefix goes on otherwise.
unfoldable pub descend {ℓ} : {A : Type ℓ} → A → (ℕ → Key → A) → (ℕ → Key → A) → Key → Key → A
descend here below apart [] [] = here
descend here below apart [] (a ∷ rest) = below a rest
descend here below apart (x ∷ rest) remain₂ = apart x rest

-- `read` is the store's `get`.
module _ (read : Hash → Result Node) where
  unfoldable pub dereference : Child → Option (Result Node)
  dereference absent = none
  dereference (of_hash h) = some (read h)
  dereference (of_node n) = some (ok n)

  -- `child.match` of the node behind a reference, or of nothing.
  unfoldable pub on_child {ℓ} : {A : Type ℓ} → (Node → Result A) → Result A → Child → Result A
  on_child visit nothing absent = nothing
  on_child visit nothing (of_hash h) = read h >>= visit
  on_child visit nothing (of_node n) = visit n

  unfoldable pub get_from : ℕ → Node → Key → Result (Option Content)
  unfolding descend on_child match
  get_from zero n key = err out_of_fuel
  get_from (suc fuel) (node prefix children content) key =
      descend (ok content) (λ a rest. on_child (λ n. get_from fuel n rest) (ok none) (children a))
        (λ x rest. ok none) (match prefix key).remain₁ (match prefix key).remain₂

  -- Each node on the way takes an alphabet.
  unfoldable pub get : Node → Key → Result (Option Content)
  unfolding get_from
  get n key = get_from (suc (length key)) n key

  unfoldable pub set_from : ℕ → Node → Key → Content → Result Node
  unfolding descend on_child match update empty_branch
  set_from zero n key content = err out_of_fuel
  set_from (suc fuel) (node prefix children old) key content =
      let shared = (match prefix key).prefix in
      descend (ok (node prefix children (some content)))
        (λ a rest. do
          child ←
              on_child (λ n. set_from fuel n rest content)
                (ok (node rest empty_branch (some content))) (children a)
          ok (node prefix (update a (of_node child) children) old))
        (λ x rest.
          set_from fuel
            (node shared (update x (of_node (node rest children old)) empty_branch) none) key
            content)
        (match prefix key).remain₁ (match prefix key).remain₂

  -- Each node on the way takes an alphabet, and the last may be split.
  unfoldable pub set : Node → Key → Content → Result Node
  unfolding set_from
  set n key content = set_from (2 + length key) n key content

  -- A node that is put in the place of a child.
  abbrev pub as_child : Result Node → Result Child
  as_child result = do n ← result; ok (of_node n)

  unfoldable pub delete_from : ℕ → Node → Key → Result Node
  unfolding descend on_child match update
  delete_from zero n key = err out_of_fuel
  delete_from (suc fuel) (node prefix children content) key =
      descend (ok (node prefix children none))
        (λ a rest. do
          child ← on_child (λ n. as_child (delete_from fuel n rest)) (ok absent) (children a)
          ok (node prefix (update a child children) content))
        (λ x rest. ok (node prefix children content)) (match prefix key).remain₁
        (match prefix key).remain₂

  unfoldable pub delete : Node → Key → Result Node
  unfolding delete_from
  delete n key = delete_from (suc (length key)) n key

  -- clear looks at what remains of the key first.
  unfoldable pub clear_at {ℓ} : {A : Type ℓ} → A → (ℕ → Key → A) → A → Key → Key → A
  clear_at all below kept remain₁ [] = all
  clear_at all below kept [] (a ∷ rest) = below a rest
  clear_at all below kept (x ∷ more) (a ∷ rest) = kept

  unfoldable pub clear_from : ℕ → Node → Key → Result Node
  unfolding clear_at on_child match update empty_branch
  clear_from zero n key = err out_of_fuel
  clear_from (suc fuel) (node prefix children content) key =
      clear_at (ok null)
        (λ a rest. do
          child ← on_child (λ n. as_child (clear_from fuel n rest)) (ok absent) (children a)
          ok (node prefix (update a child children) content))
        (ok (node prefix children content)) (match prefix key).remain₁ (match prefix key).remain₂

  unfoldable pub clear : Node → Key → Result Node
  unfolding clear_from
  clear n key = clear_from (suc (length key)) n key
