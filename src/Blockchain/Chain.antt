-- ===== src/Blockchain/Chain.antt =====
-- packages/blockchain/src/blockchain.ts: Blockchain
use uniqys_kit.Prelude.{
  ℕ, ◌+◌, ◌-◌, ◌==◌, Bool, true, false, if◌then◌else◌, Result, ok, err, ◌>>=◌, ◌>>◌, guard,
  not_ready, invalid_genesis,
}
use uniqys_kit.Types.FixedBytes
use uniqys_kit.Types.FixedBytes.{Bytes}
use uniqys_kit.Signature.{Hash, Crypto}
use uniqys_kit.Store.Interface.{Store}
use uniqys_kit.Blockchain.Validators.{ValidatorSet}
use uniqys_kit.Blockchain.Votes.{Consensus}
use uniqys_kit.Blockchain.Blocks.{Block, BlockHeader, BlockBody, header_hash, block_hash}
use uniqys_kit.Blockchain.BlockStore.{
  BlockStore, get_height, get_header, get_body, get_validator_set, get_last_consensus, set_header,
  set_body, set_validator_set,
}

pub record Blockchain (State : Type 0) : Type 0 where
  pub is_ready : Bool
  pub block_store : BlockStore State
  pub genesis_block : Block
  pub initial_validator_set : ValidatorSet

-- A method that throws after it has written returns the chain too.
abbrev pub Outcome {ℓ} : Type 0 → Type ℓ → Type ℓ
Outcome State A = Blockchain State × Result A

module _ {State : Type 0} (c : Crypto) (store : Store State Bytes) where
  unfoldable pub new_blockchain : BlockStore State → Block → ValidatorSet → Blockchain State
  new_blockchain blocks genesis vs = record {
    is_ready = false;
    block_store = blocks;
    genesis_block = genesis;
    initial_validator_set = vs;
  }

  unfoldable pub check_ready : Blockchain State → Result (Unit {0})
  check_ready b = guard b.is_ready not_ready

  -- `height === 0`: the genesis block is put into an empty store.
  unfoldable pub put_genesis : ℕ → Block → BlockStore State → Result (BlockStore State)
  put_genesis height genesis s =
      if height == 0
      then (do s' ← set_header store 1 genesis.header s; set_body store 1 genesis.body s')
      else ok s

  -- What ready stores under the write lock.
  unfoldable pub initialize : Blockchain State → Result (BlockStore State)
  unfolding put_genesis
  initialize b = do
    height ← get_height store b.block_store
    s ← put_genesis height b.genesis_block b.block_store
    set_validator_set store c b.initial_validator_set s

  unfoldable pub check_genesis : Block → BlockStore State → Result (Unit {0})
  check_genesis genesis s = do
    stored ← get_header store 1 s
    hash ← header_hash c stored
    expected ← block_hash c genesis
    guard (FixedBytes.equals hash expected) invalid_genesis

  unfoldable pub finish_ready :
      Blockchain State → Result (Unit {0}) → Blockchain State × Result (Unit {0})
  finish_ready b (ok done) = (record b { is_ready = true }, ok done)
  finish_ready b (err e) = (b, err e)

  -- An error while the store is written leaves it in a state that is not modelled: the old one.
  unfoldable pub start_ready :
      Blockchain State → Result (BlockStore State) → Blockchain State × Result (Unit {0})
  unfolding finish_ready check_genesis
  start_ready b (err e) = (b, err e)
  start_ready b (ok s) =
      finish_ready (record b { block_store = s }) (check_genesis b.genesis_block s)

  unfoldable pub ready : Blockchain State → Blockchain State × Result (Unit {0})
  unfolding start_ready initialize
  ready b = if b.is_ready then (b, ok tt) else start_ready b (initialize b)

  unfoldable pub hash_of : ℕ → Blockchain State → Result Hash
  hash_of height b = do header ← get_header store height b.block_store; header_hash c header

  unfoldable pub header_of : ℕ → Blockchain State → Result BlockHeader
  header_of height b = get_header store height b.block_store

  unfoldable pub body_of : ℕ → Blockchain State → Result BlockBody
  body_of height b = get_body store height b.block_store

  unfoldable pub block_of : ℕ → Blockchain State → Result Block
  unfolding check_ready
  block_of height b = do
    check_ready b
    header ← get_header store height b.block_store
    body ← get_body store height b.block_store
    ok (record { header = header; body = body })

  unfoldable pub validator_set_of : ℕ → Blockchain State → Result ValidatorSet
  unfolding check_ready
  validator_set_of height b = do
    check_ready b
    header ← get_header store (if height == 1 then 1 else height - 1) b.block_store
    get_validator_set store header.next_validator_set_root b.block_store

  unfoldable pub consensus_of : ℕ → Blockchain State → Result Consensus
  unfolding check_ready
  consensus_of height b = do
    check_ready b
    chain_height ← get_height store b.block_store
    (if chain_height == height
        then get_last_consensus store b.block_store
        else (get_body store (height + 1) b.block_store >>= λ body. ok body.last_block_consensus))

  unfoldable pub height : Blockchain State → Result ℕ
  unfolding check_ready
  height b = do check_ready b; get_height store b.block_store
