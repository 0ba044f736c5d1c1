-- ===== src/ChainCore/Sync/Headers.antt =====
-- packages/chain-core/src/synchronizer.ts: catchUpHeaders. The blocks of the node may grow meanwhile, so
-- each round of the loop has the height that it reads and the headers that the provider answers;
-- what others write to the store meanwhile is left out.
use uniqys_kit.Prelude.{
  ℕ, ◌+◌, ◌-◌, ◌≤◌, ◌<◌, ◌≡◌, refl, sym, ap, ◌∙◌, List, [], ◌∷◌, reverse, Bool, true, false, ◌&&◌,
  if◌then◌else◌, leb, ◌==◌, ==→eq, arith, Result, ok, guard, guard-eq-ok, ◌>>=◌, ◌>>◌, >>=-eq-ok,
  ok-injective, fetched_header_is_invalid,
}
use uniqys_kit.Types.FixedBytes.{Bytes, equals, equals→eq}
use uniqys_kit.Signature.{Crypto}
use uniqys_kit.Store.Interface.{Store}
use uniqys_kit.Blockchain.Blocks.{BlockHeader, header_hash}
use uniqys_kit.Blockchain.BlockStore.{BlockStore, get_header, set_header}
use uniqys_kit.ChainCore.Sync.Jobs.{larger}

pub record Round : Type 0 where
  pub height : ℕ
  pub headers : List BlockHeader

-- `last` is the lowest header so far.
pub record Progress (State : Type 0) : Type 0 where
  pub last : BlockHeader
  pub blocks : BlockStore State
  pub is_done : Bool

-- The request of a round: the first height, and the count.
unfoldable pub request : ℕ → ℕ → ℕ → ℕ × ℕ
request max_fetch_headers unknown height =
    let from = larger (height - max_fetch_headers) unknown in (from, height - from)

module _ {State : Type 0} (c : Crypto) (store : Store State Bytes) where
  unfoldable pub accept_header : BlockHeader → Progress State → Result (Progress State)
  accept_header header p = do
    hash ← header_hash c header
    guard (header.height + 1 == p.last.height && equals hash p.last.last_block_hash)
        fetched_header_is_invalid
    s ← set_header store header.height header p.blocks
    ok (record p { last = header; blocks = s })

  unfoldable pub accept_headers : List BlockHeader → Progress State → Result (Progress State)
  unfolding accept_header
  accept_headers [] p = ok p
  accept_headers (header ∷ headers) p = do p' ← accept_header header p; accept_headers headers p'

  -- The loop, for as many rounds as there are.
  unfoldable pub run_rounds : List Round → Progress State → Result (Progress State)
  unfolding accept_headers
  run_rounds [] p = ok p
  run_rounds (round ∷ rounds) p =
      let next = (do p' ← accept_headers (reverse round.headers) p; run_rounds rounds p') in
      if leb p.last.height (round.height + 1) then ok (record p { is_done = true }) else next

  unfoldable pub catch_up_headers :
      List Round → BlockHeader → BlockStore State → Result (Progress State)
  unfolding run_rounds
  catch_up_headers rounds target blocks = do
    s ← set_header store target.height target blocks
    run_rounds rounds (record { last = target; blocks = s; is_done = false })

  -- The store has the header under its height, and each one above it, up to the target; and each is
  -- the parent of the next.
  pub data Linked (target : BlockHeader) (blocks : BlockStore State) : BlockHeader → Type 0 where
    top : get_header store target.height blocks ≡ ok target → Linked target blocks target
    under :
        (header next : BlockHeader)
        → get_header store header.height blocks ≡ ok header
        → header.height + 1 ≡ next.height
        → header_hash c header ≡ ok next.last_block_hash
        → Linked target blocks next
        → Linked target blocks header

  and-true : (a b : Bool) → (a && b) ≡ true → (a ≡ true) × (b ≡ true)
  and-true true b h = (refl, h)
  and-true false b h = cc

  -- What it means that a header is accepted.
  pub accept_header-parts :
      (header : BlockHeader) (p p' : Progress State)
      → accept_header header p ≡ ok p'
      → (header.height + 1 ≡ p.last.height)
        × (header_hash c header ≡ ok p.last.last_block_hash)
        × (p'.last ≡ header)
        × (set_header store header.height header p.blocks ≡ ok p'.blocks)
        × (p'.is_done ≡ p.is_done)
  unfolding accept_header
  accept_header-parts header p p' e =
      let (hash, e₁, e₂) = >>=-eq-ok (header_hash c header) _ e in
      let (done, e₃, e₄) =
        >>=-eq-ok
          (guard (header.height + 1 == p.last.height && equals hash p.last.last_block_hash)
            fetched_header_is_invalid)
          _ e₂ in
      let (s, e₅, e₆) = >>=-eq-ok (set_header store header.height header p.blocks) _ e₄ in
      let (same_height, same_hash) = and-true _ _ (guard-eq-ok _ _ e₃) in
      let is = ok-injective e₆ in
      (
        ==→eq (header.height + 1) p.last.height same_height,
        e₁ ∙ ap ok (equals→eq hash p.last.last_block_hash same_hash),
        sym (ap (λ t. t.last) is),
        e₅ ∙ ap (λ t. ok t.blocks) is,
        sym (ap (λ t. t.is_done) is),
      )

-- A round asks for heights that are unknown, up to the lowest header, and for no more than it may.
request-IsBelow :
    (max_fetch_headers unknown height : ℕ)
    → unknown < height
    → (unknown ≤ (request max_fetch_headers unknown height).0)
      × ((request max_fetch_headers unknown height).0 + (request max_fetch_headers unknown height).1
          ≡ height)
      × ((request max_fetch_headers unknown height).1 ≤ max_fetch_headers)
unfolding request
request-IsBelow max_fetch_headers unknown height h = (ground arith, ground arith, ground arith)
