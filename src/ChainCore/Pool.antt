-- ===== src/ChainCore/Pool.antt =====
-- packages/chain-core/src/transaction-pool.ts. The hash of a transaction is computed where it is
-- made. The application's validator and selector are functions, and sending is left out: add is two
-- steps, before and after the validator is awaited, and between them the pool may change.
use uniqys_kit.Prelude.{
  ℕ, suc, ◌≤◌, Bool, true, false, List, [], ◌∷◌, ◌||◌, not, if◌then◌else◌, leb, length, arith,
}
use uniqys_kit.Types.FixedBytes.{Bytes}
use uniqys_kit.Types.ByteMap
use uniqys_kit.Types.ByteMap.{ByteMap}
use uniqys_kit.Signature.{Hash}
use uniqys_kit.Blockchain.Transaction.{Transaction}

abbrev pub Pool : Type 0
Pool = ByteMap Transaction

module _ (hash_of : Transaction → Hash) (max_pooled : ℕ) where
  unfoldable pub has_transaction : Hash → Pool → Bool
  has_transaction hash pool = ByteMap.has hash pool

  -- canAdd: the transaction is not there, and the pool is not full
  unfoldable pub can_add : Hash → Pool → Bool
  can_add key pool = not (ByteMap.has key pool || leb max_pooled (length pool))

  -- add, after the validator's answer
  unfoldable pub finish_add : Transaction → Bool → Pool → Pool
  unfolding can_add
  finish_add tx valid pool =
      if valid
      then (if can_add (hash_of tx) pool then ByteMap.set (hash_of tx) tx pool else pool)
      else pool

  -- add, where nothing happens to the pool while the validator is awaited
  unfoldable pub add : (Transaction → Bool) → Transaction → Pool → Pool
  unfolding finish_add
  add validator tx pool =
      if can_add (hash_of tx) pool then finish_add tx (validator tx) pool else pool

  unfoldable pub remove_executed : List Transaction → Pool → Pool
  remove_executed [] pool = pool
  remove_executed (tx ∷ txs) pool = remove_executed txs (ByteMap.delete (hash_of tx) pool)

  -- The validator's answers for those that were pooled.
  unfoldable pub remove_invalid : (Transaction → Bool) → List Transaction → Pool → Pool
  remove_invalid validator [] pool = pool
  remove_invalid validator (tx ∷ txs) pool =
      let rest = remove_invalid validator txs in
      rest (if validator tx then pool else ByteMap.delete (hash_of tx) pool)

  unfoldable pub update : (Transaction → Bool) → List Transaction → Pool → Pool
  unfolding remove_executed remove_invalid
  update validator executed pool =
      let left = remove_executed executed pool in
      remove_invalid validator (ByteMap.values left) left

  unfoldable pub select_transactions {ℓ} : {A : Type ℓ} → (List Transaction → A) → Pool → A
  select_transactions selector pool = selector (ByteMap.values pool)

  length-set :
      (k : Bytes) (tx : Transaction) (pool : Pool)
      → length (ByteMap.set k tx pool) ≤ suc (length pool)
  unfolding ByteMap.set
  length-set k tx [] = omega arith
  length-set k tx ((j, t) ∷ pool) = ground (arith, length-set k tx pool)

  length-delete : (k : Bytes) (pool : Pool) → length (ByteMap.delete k pool) ≤ length pool
  unfolding ByteMap.delete
  length-delete k [] = omega arith
  length-delete k ((j, t) ∷ pool) = ground (arith, length-delete k pool)

  length-remove_executed :
      (txs : List Transaction) (pool : Pool) → length (remove_executed txs pool) ≤ length pool
  unfolding remove_executed
  length-remove_executed [] pool = omega arith
  length-remove_executed (tx ∷ txs) pool = omega (
    arith,
    length-remove_executed txs (ByteMap.delete (hash_of tx) pool),
    length-delete (hash_of tx) pool,
  )

  length-remove_invalid :
      (validator : Transaction → Bool) (txs : List Transaction) (pool : Pool)
      → length (remove_invalid validator txs pool) ≤ length pool
  unfolding remove_invalid
  length-remove_invalid validator [] pool = omega arith
  length-remove_invalid validator (tx ∷ txs) pool =
      let kept = if validator tx then pool else ByteMap.delete (hash_of tx) pool in
      omega (arith, length-remove_invalid validator txs kept, kept_length (validator tx))
    where
      kept_length :
          (b : Bool) → length (if b then pool else ByteMap.delete (hash_of tx) pool) ≤ length pool
      kept_length true = omega arith
      kept_length false = length-delete (hash_of tx) pool

  -- The pools that calls of add and update bring about, whatever happens while a validator is awaited.
  pub data Reachable : Pool → Type 0 where
    empty : Reachable []
    added :
        {pool : Pool} (tx : Transaction) (valid : Bool)
        → Reachable pool
        → Reachable (finish_add tx valid pool)
    executed :
        {pool : Pool} (txs : List Transaction)
        → Reachable pool
        → Reachable (remove_executed txs pool)
    checked :
        {pool : Pool} (validator : Transaction → Bool) (txs : List Transaction)
        → Reachable pool
        → Reachable (remove_invalid validator txs pool)

  length-finish_add :
      (tx : Transaction) (valid : Bool) (pool : Pool)
      → length pool ≤ max_pooled
      → length (finish_add tx valid pool) ≤ max_pooled
  unfolding finish_add can_add
  length-finish_add tx valid pool h = ground (arith, length-set (hash_of tx) tx pool)

  -- The pool never holds more transactions than its limit, whatever other calls of add and update
  -- do while a validator is awaited.
  pub length-Reachable : {pool : Pool} → Reachable pool → length pool ≤ max_pooled
  length-Reachable empty = omega arith
  length-Reachable (added {pool = pool} tx valid r) =
      length-finish_add tx valid pool (length-Reachable r)
  length-Reachable (executed {pool = pool} txs r) =
      omega (arith, length-remove_executed txs pool, length-Reachable r)
  length-Reachable (checked {pool = pool} validator txs r) =
      omega (arith, length-remove_invalid validator txs pool, length-Reachable r)
