-- ===== src/ChainCore/Proposals.antt =====
-- packages/chain-core/src/consensus-engine/index.ts: the block that a node proposes, and the blocks that it
-- accepts. The chain and the clock are arguments: the header and the consensus of the block before, and
-- the time in seconds.
use uniqys_kit.Prelude.{
  ℕ, ◌+◌, ◌-◌, ◌≤◌, ◌≡◌, refl, subst, ◌==◌, ==-refl, Bool, true, false, ◌||◌, not, Option, none,
  some, [], ◌∷◌, if◌then◌else◌, ltb, Result, ok, err, guard, ◌>>=◌, ◌>>◌, >>=-eq-ok, ok-injective,
  arith, invalid_height, invalid_genesis_block, last_block_hash_mismatch, app_state_hash_mismatch,
  invalid_timestamp, next_validator_set_mismatch, event_transaction_root_mismatch,
}
use uniqys_kit.Types.FixedBytes.{equals, equals_refl}
use uniqys_kit.Signature.{Crypto}
use uniqys_kit.Blockchain.Transaction
use uniqys_kit.Blockchain.Transaction.{Transaction, TransactionList}
use uniqys_kit.Blockchain.Votes.{Consensus, consensus_hash}
use uniqys_kit.Blockchain.Blocks.{
  Block, BlockHeader, block_validate, body_validate, block_hash, header_hash, construct,
}
use uniqys_kit.ChainCore.State.{State}

-- transactions.filter(tx => tx.type === TransactionType.Event)
unfoldable pub events : TransactionList → TransactionList
events [] = []
events (tx ∷ txs) =
    let rest = events txs in if tx.kind == Transaction.event then tx ∷ rest else rest

-- The tests of the timestamp: not before the block before, and not too far from the clock.
unfoldable pub is_bad_time : ℕ → ℕ → ℕ → ℕ → Bool
is_bad_time allowed now last time =
    ltb time last || ltb (now + allowed) time || ltb time (now - allowed)

own_time : (allowed now last : ℕ) → last ≤ now → is_bad_time allowed now last now ≡ false
unfolding is_bad_time
own_time allowed now last h = ground arith

module _ (c : Crypto) where
  -- The block of sendProposalMessage.
  unfoldable pub next_block : State → BlockHeader → Consensus → ℕ → TransactionList → Result Block
  next_block s last last_consensus now transactions = do
    last_hash ← header_hash c last
    construct c s.height now last_hash s.next_validator_set_root s.app_state_hash transactions
        last_consensus

  unfoldable pub proposed_block :
      State → Block → BlockHeader → Consensus → ℕ → TransactionList → Option Block → Result Block
  unfolding next_block
  proposed_block s genesis last last_consensus now transactions (some block) = ok block
  proposed_block s genesis last last_consensus now transactions none =
      let next = next_block s last last_consensus now transactions in
      if s.height == 1 then ok genesis else next

module _ (c : Crypto) (allowed : ℕ) where
  unfoldable pub check_first : Block → Block → Result (Unit {0})
  check_first genesis block = do
    hash ← block_hash c block
    expected ← block_hash c genesis
    guard (equals hash expected) invalid_genesis_block

  unfoldable pub check_next : State → BlockHeader → ℕ → Block → Result (Unit {0})
  unfolding is_bad_time events
  check_next s last now block = do
    last_hash ← header_hash c last
    guard (equals block.header.last_block_hash last_hash) last_block_hash_mismatch
    guard (equals block.header.app_state_hash s.app_state_hash) app_state_hash_mismatch
    guard (not (is_bad_time allowed now last.timestamp block.header.timestamp)) invalid_timestamp
    guard (equals block.header.next_validator_set_root s.next_validator_set_root)
        next_validator_set_mismatch
    event_root ← Transaction.list_hash c (events block.body.transaction_list)
    guard (equals event_root s.event_transaction_root) event_transaction_root_mismatch

  -- What validateBlock tries.
  unfoldable pub check_block : State → Block → BlockHeader → ℕ → Block → Result (Unit {0})
  unfolding check_first check_next
  check_block s genesis last now block = do
    guard (block.header.height == s.height) invalid_height
    block_validate c block
    (if s.height == 1 then check_first genesis block else check_next s last now block)

  abbrev pub returns : Result (Unit {0}) → Bool
  returns (ok done) = true
  returns (err e) = false

  unfoldable pub validate_block : State → Block → BlockHeader → ℕ → Block → Bool
  unfolding check_block
  validate_block s genesis last now block = returns (check_block s genesis last now block)

  -- The block that a node makes for a height other than 1 is accepted by validateBlock of the same
  -- state at the same time, if the time is not before that of the block before, and the root of the
  -- event transactions that it has taken is the one that the application expects.
  pub validate_block-next_block :
      (s : State) (genesis block : Block) (last : BlockHeader) (last_consensus : Consensus)
      (now : ℕ) (transactions : TransactionList)
      → next_block c s last last_consensus now transactions ≡ ok block
      → (s.height == 1) ≡ false
      → last.timestamp ≤ now
      → Transaction.list_hash c (events transactions) ≡ ok s.event_transaction_root
      → validate_block s genesis last now block ≡ true
  unfolding next_block construct validate_block check_block check_next block_validate body_validate
  validate_block-next_block s genesis block last last_consensus now transactions made later time
        at_events =
      let (last_hash, e₁, e₂) = >>=-eq-ok (header_hash c last) _ made in
      let (root, e₃, e₄) = >>=-eq-ok (Transaction.list_hash c transactions) _ e₂ in
      let (consensus_root, e₅, e₆) = >>=-eq-ok (consensus_hash c last_consensus) _ e₄ in
      subst (λ b. validate_block s genesis last now b ≡ true) (ok-injective e₆)
        (rw
          (
            ==-refl s.height,
            e₃,
            equals_refl root,
            e₅,
            equals_refl consensus_root,
            later,
            e₁,
            equals_refl last_hash,
            equals_refl s.app_state_hash,
            own_time allowed now last.timestamp time,
            equals_refl s.next_validator_set_root,
            at_events,
            equals_refl s.event_transaction_root,
          )
          refl)
