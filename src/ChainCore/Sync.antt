-- ===== src/ChainCore/Sync.antt =====
-- packages/chain-core/src/synchronizer.ts: Synchronizer, without its timers and the network. A call of
-- Blockchain or BlockStore is one step, and what other nodes answer is a parameter.
pub mod Headers
pub mod Stored
pub mod Linkage
pub mod Jobs
use uniqys_kit.Prelude.{
  ℕ, zero, suc, ◌+◌, ◌-◌, ◌==◌, Bool, true, false, ◌&&◌, ◌||◌, List, [], ◌∷◌, Option, none, some,
  if◌then◌else◌, ltb, leb, Result, ok, err, ◌>>=◌, ◌>>◌, failed_to_chain_from_local,
}
use uniqys_kit.Types.FixedBytes.{Bytes}
use uniqys_kit.Signature.{Hash, Crypto}
use uniqys_kit.Store.Interface.{Store}
use uniqys_kit.Queue.{Item, PriorityQueue, enqueue, dequeue, ascending}
use uniqys_kit.Blockchain.Votes.{Consensus, validate}
use uniqys_kit.Blockchain.Blocks.{
  Block, BlockHeader, BlockBody, block_hash, block_validate, body_validate,
}
use uniqys_kit.Blockchain.BlockStore.{
  BlockStore, get_height, get_header, set_header, set_body, set_height, set_last_consensus,
}
use uniqys_kit.Blockchain.Chain
use uniqys_kit.Blockchain.Chain.{Blockchain, validator_set_of}

pub record SynchronizerOptions : Type 0 where
  pub max_fetch_headers : ℕ
  pub max_fetch_bodies : ℕ
  pub max_pending_gap : ℕ

abbrev pub defaults : SynchronizerOptions
defaults = record { max_fetch_headers = 1000; max_fetch_bodies = 100; max_pending_gap = 50 }

-- What waits in the queue; `from` is the node that sent it.
pub record Pending (Peer : Type 0) : Type 0 where
  pub block : Block
  pub consensus : Consensus
  pub from : Option Peer

-- The keys of `fetchSchedule`.
unfoldable pub is_scheduled : ℕ → List ℕ → Bool
is_scheduled height [] = false
is_scheduled height (h ∷ schedule) = h == height || is_scheduled height schedule

unfoldable pub schedule_fetch : ℕ → ℕ → List ℕ → List ℕ
unfolding is_scheduled
schedule_fetch height known schedule =
    if is_scheduled height schedule || leb height known then schedule else height ∷ schedule

-- `height <= knownHeight || (height - knownHeight) > maxPendingGap`
unfoldable pub is_out_of_reach : SynchronizerOptions → ℕ → ℕ → Bool
is_out_of_reach options height known =
    leb height known || ltb options.max_pending_gap (height - known)

abbrev pub BlockQueue : Type 0 → Type 0
BlockQueue Peer = PriorityQueue (Item (Pending Peer))

module _ {Peer : Type 0} (undefined : Item (Pending Peer)) where
  unfoldable pub enqueue_block : Pending Peer → BlockQueue Peer → BlockQueue Peer
  enqueue_block pending q =
      enqueue undefined ascending
        (record { priority = pending.block.header.height; value = pending }) q

  unfoldable pub enqueue_new_block :
      SynchronizerOptions → ℕ → Pending Peer → BlockQueue Peer → BlockQueue Peer
  unfolding is_out_of_reach enqueue_block
  enqueue_new_block options known pending q =
      if is_out_of_reach options pending.block.header.height known
      then q
      else enqueue_block pending q

-- What becomes of a pending block.
pub data Verdict : Type 0 where
  skipped : Verdict
  chained : Verdict
  requeued : Verdict

module _ {State : Type 0} (c : Crypto) (store : Store State Bytes) where
  -- A consensus is for the hash of the block, by the validators of its height.
  unfoldable pub check_block : Block → Consensus → Blockchain State → Result (Unit {0})
  check_block block consensus b = do
    block_validate c block
    hash ← block_hash c block
    genesis ← block_hash c b.genesis_block
    vs ← validator_set_of c store block.header.height b
    validate c consensus hash genesis vs

  -- The tests of chainPendingBlock, against the height before the lock is taken.
  unfoldable pub decide : Block → Consensus → Blockchain State → Result Verdict
  unfolding check_block
  decide block consensus b = do
    known ← Chain.height c store b
    let height = block.header.height
    let checked : Result Verdict = do check_block block consensus b; ok chained
    if leb height known then ok skipped else if height == known + 1 then checked else ok requeued

  unfoldable pub update_height : ℕ → Consensus → BlockStore State → Result (BlockStore State)
  update_height height consensus s = do
    known ← get_height store s
    let updated : Result (BlockStore State) = do
      s₁ ← set_height store height s
      set_last_consensus store consensus s₁
    if ltb known height then updated else ok s

  -- Under the lock the height is read again.
  unfoldable pub chain_block : Block → Consensus → BlockStore State → Result (BlockStore State)
  unfolding update_height
  chain_block block consensus s = do
    known ← get_height store s
    let height = block.header.height
    let written : Result (BlockStore State) = do
      s₁ ← set_header store height block.header s
      s₂ ← set_body store height block.body s₁
      update_height height consensus s₂
    if height == known + 1 then written else ok s

  -- One body that was fetched, for the header that is stored.
  unfoldable pub accept_body : ℕ → BlockBody → BlockStore State → Result (BlockStore State)
  accept_body height body s = do
    header ← get_header store height s
    body_validate c body header
    set_body store height body s

  -- What a turn of the loop leaves: the blocks, the queue, and the node that is dropped.
  module _ {Peer : Type 0} (undefined : Item (Pending Peer)) where
    abbrev pub Outcome : Type 0
    Outcome = Blockchain State × BlockQueue Peer × Option Peer

    unfoldable pub act :
        Verdict → Pending Peer → Blockchain State → BlockQueue Peer → Result Outcome
    unfolding chain_block enqueue_block
    act skipped p b q = ok (b, q, none)
    act requeued p b q = ok (b, enqueue_block undefined p q, none)
    act chained p b q = do
      s ← chain_block p.block p.consensus b.block_store
      ok (record b { block_store = s }, q, none)

    -- The `catch`: the node that sent the block is dropped. What was written before the error is
    -- left out.
    unfoldable pub recover :
        Option Peer → Blockchain State → BlockQueue Peer → Result Outcome → Result Outcome
    recover from b q (ok outcome) = ok outcome
    recover none b q (err e) = err failed_to_chain_from_local
    recover (some peer) b q (err e) = ok (b, q, some peer)

    unfoldable pub chain_dequeued :
        PriorityQueue (Item (Pending Peer)) × Option (Item (Pending Peer))
        → Blockchain State
        → Result Outcome
    unfolding recover act decide
    chain_dequeued (q, none) b = ok (b, q, none)
    chain_dequeued (q, some item) b =
        recover item.value.from b q
          (do verdict ← decide item.value.block item.value.consensus b; act verdict item.value b q)

    unfoldable pub chain_pending_block : BlockQueue Peer → Blockchain State → Result Outcome
    unfolding chain_dequeued
    chain_pending_block q b = chain_dequeued (dequeue undefined ascending q) b
