-- ===== src/Easy/Controller.antt =====
-- packages/easy-framework/src/controller.ts. What the controller uses of State is the record
-- ApplicationState, which Easy.NodeState fills, and the application behind HTTP and the provider of events are functions: a
-- request may change the state, by the memcached server and the API. What runs under the write
-- lock is one step.
pub mod Trace
pub mod Kinds
use uniqys_kit.Prelude.{
  ℕ, ◌+◌, ◌==◌, Bool, true, false, ◌&&◌, not, Option, none, some, List, [], ◌∷◌, ◌++◌,
  if◌then◌else◌, ltb, leb, length, Result, ok, err, guard, ◌>>=◌, ◌>>◌, non_continuous_nonce,
  response_status, unknown_label, nonce_too_low, transaction_too_large,
}
use uniqys_kit.Serialize.Codec
use uniqys_kit.Signature.{Hash, Address, Crypto}
use uniqys_kit.Blockchain.Transaction
use uniqys_kit.Blockchain.Transaction.{Transaction, TransactionList}
use uniqys_kit.Blockchain.Blocks.{BlockHeader}
use uniqys_kit.Easy.Account.{Account, increment_nonce}
use uniqys_kit.Easy.Http.{HttpResponse}
use uniqys_kit.Easy.Memcached.{OperationMode, read_write, read_only}
use uniqys_kit.Easy.State.{AppState}
use uniqys_kit.Easy.Transactions
use uniqys_kit.Easy.Transactions.{
  EasyTransaction, SignedTransaction, signed_deserialize, TransactionResult,
}

pub record ApplicationState (State : Type 0) : Type 0 where
  pub get_account : Address → State → Result Account
  pub set_account : Address → Account → State → Result State
  pub root : State → Hash
  pub rollback : Hash → State → State
  pub change_mode : OperationMode → State → State
  pub set_result : Hash → TransactionResult → State → Result State
  pub get_event_nonce : State → Result ℕ
  pub increment_event_nonce : State → Result State
  pub get_latest_block_timestamp : State → Result ℕ
  pub get_latest_event_timestamp : State → Result ℕ
  pub new_height : ℕ → List Hash → Bool → Hash → State → Result State
  pub get_app_state : State → Result AppState

-- Request.unpack and Response.pack: the state after the request, and the response or an error.
pub record Application (State : Type 0) : Type 0 where
  pub call : SignedTransaction → BlockHeader → Hash → State → State × Result HttpResponse
  pub call_event : EasyTransaction → BlockHeader → Hash → State → State × Result HttpResponse

-- getTransactions of an EventProvider: from a time, to a time, with a first nonce.
abbrev pub EventProvider : Type 0
EventProvider = ℕ → ℕ → ℕ → TransactionList

-- `400 <= res.status && res.status < 600`
unfoldable pub is_failure : ℕ → Bool
is_failure status = leb 400 status && ltb status 600

module _ {State : Type 0} (c : Crypto) (state : ApplicationState State) (app : Application State)
    (events : Option EventProvider) where
  -- What is tried returns the state that it has made, and whether it has thrown.
  unfoldable pub check_status : HttpResponse → State → State × Result (Unit {0})
  unfolding is_failure
  check_status response s = (s, guard (not (is_failure response.status)) response_status)

  unfoldable pub stored_result : State → HttpResponse → Result State → State × Result (Unit {0})
  stored_result before response (err e) = (before, err e)
  stored_result before response (ok s) = check_status response s

  unfoldable pub keep_response :
      BlockHeader → Hash → State × Result HttpResponse → State × Result (Unit {0})
  keep_response header tx_hash (s, err e) = (s, err e)
  keep_response header tx_hash (s, ok response) =
      stored_result s response
        (state.set_result tx_hash (record { height = header.height; response = response }) s)

  unfoldable pub run_request :
      SignedTransaction → BlockHeader → Hash → State → Result State → State × Result (Unit {0})
  run_request tx header tx_hash before (err e) = (before, err e)
  run_request tx header tx_hash before (ok s) =
      keep_response header tx_hash (app.call tx header tx_hash (state.change_mode read_write s))

  unfoldable pub try_account :
      SignedTransaction → BlockHeader → Hash → State → Result Account → State × Result (Unit {0})
  try_account tx header tx_hash s (err e) = (s, err e)
  try_account tx header tx_hash s (ok account) =
      let next = increment_nonce account in
      if tx.transaction.nonce == next.nonce
      then run_request tx header tx_hash s (state.set_account tx.signer next s)
      else (s, err non_continuous_nonce)

  unfoldable pub try_normal :
      SignedTransaction → BlockHeader → Hash → State → State × Result (Unit {0})
  try_normal tx header tx_hash s = try_account tx header tx_hash s (state.get_account tx.signer s)

  -- An event's response is not stored.
  unfoldable pub event_response : State × Result HttpResponse → State × Result (Unit {0})
  event_response (s, err e) = (s, err e)
  event_response (s, ok response) = check_status response s

  unfoldable pub run_event :
      EasyTransaction → BlockHeader → Hash → State → Result State → State × Result (Unit {0})
  run_event tx header tx_hash before (err e) = (before, err e)
  run_event tx header tx_hash before (ok s) =
      event_response (app.call_event tx header tx_hash (state.change_mode read_write s))

  unfoldable pub try_nonce :
      EasyTransaction → BlockHeader → Hash → State → Result ℕ → State × Result (Unit {0})
  try_nonce tx header tx_hash s (err e) = (s, err e)
  try_nonce tx header tx_hash s (ok nonce) =
      if tx.nonce == nonce + 1
      then run_event tx header tx_hash s (state.increment_event_nonce s)
      else (s, err non_continuous_nonce)

  unfoldable pub try_event :
      EasyTransaction → BlockHeader → Hash → State → State × Result (Unit {0})
  try_event tx header tx_hash s = try_nonce tx header tx_hash s (state.get_event_nonce s)

  -- `catch` and `finally`: the state, and the hashes that are added to the valid ones.
  unfoldable pub settle : Hash → Hash → State × Result (Unit {0}) → State × List Hash
  settle root tx_hash (s, ok done) = (state.change_mode read_only s, tx_hash ∷ [])
  settle root tx_hash (s, err e) = (state.change_mode read_only (state.rollback root s), [])

  unfoldable pub execute_normal : Transaction → BlockHeader → State → Result (State × List Hash)
  execute_normal core_tx header s = do
    tx ← Codec.deserialize (signed_deserialize c) core_tx.payload
    tx_hash ← Transaction.hash c core_tx
    ok (settle (state.root s) tx_hash (try_normal tx header tx_hash s))

  unfoldable pub execute_event : Transaction → BlockHeader → State → Result (State × List Hash)
  execute_event core_tx header s = do
    tx ← Codec.deserialize Transactions.deserialize core_tx.payload
    tx_hash ← Transaction.hash c core_tx
    ok (settle (state.root s) tx_hash (try_event tx header tx_hash s))

  unfoldable pub execute_one : Transaction → BlockHeader → State → Result (State × List Hash)
  execute_one core_tx header s =
      if core_tx.kind == Transaction.normal
      then execute_normal core_tx header s
      else if core_tx.kind == Transaction.event
      then execute_event core_tx header s
      else err unknown_label

  -- The loop of executeTransactions: the state, and the hashes of the valid transactions.
  unfoldable pub execute_each : TransactionList → BlockHeader → State → Result (State × List Hash)
  execute_each [] header s = ok (s, [])
  execute_each (tx ∷ txs) header s = do
    (s₁, valid) ← execute_one tx header s
    (s₂, more) ← execute_each txs header s₁
    ok (s₂, valid ++ more)

  unfoldable pub event_exists : TransactionList → Bool
  event_exists [] = false
  event_exists (tx ∷ txs) =
      let rest = event_exists txs in if tx.kind == Transaction.event then true else rest

  unfoldable pub provided : Option EventProvider → ℕ → ℕ → ℕ → TransactionList
  provided none from to nonce = []
  provided (some provider) from to nonce = provider from to nonce

  unfoldable pub execute_transactions :
      TransactionList → BlockHeader → State → Result (State × AppState)
  unfolding execute_each event_exists provided
  execute_transactions txs header s = do
    (s₁, valid) ← execute_each txs header s
    latest ← state.get_latest_event_timestamp s₁
    nonce ← state.get_event_nonce s₁
    event_root ← Transaction.list_hash c (provided events latest header.timestamp (nonce + 1))
    s₂ ← state.new_height header.timestamp valid (event_exists txs) event_root s₁
    told ← state.get_app_state s₂
    ok (s₂, told)

  -- What validateTransaction tries.
  unfoldable pub check_transaction : ℕ → Transaction → State → Result (Unit {0})
  check_transaction limit core_tx s = do
    tx ← Codec.deserialize (signed_deserialize c) core_tx.payload
    account ← state.get_account tx.signer s
    guard (ltb account.nonce tx.transaction.nonce) nonce_too_low
    bytes ← Codec.serialize Transaction.serialize core_tx
    guard (leb (length bytes) limit) transaction_too_large

  abbrev pub succeeds : Result (Unit {0}) → Bool
  succeeds (ok done) = true
  succeeds (err e) = false

  unfoldable pub validate_transaction : ℕ → Transaction → State → Bool
  unfolding check_transaction
  validate_transaction limit core_tx s = succeeds (check_transaction limit core_tx s)

  -- The loop of selectTransactions.
  unfoldable pub select_next : TransactionList → State → Result TransactionList
  select_next [] s = ok []
  select_next (core_tx ∷ core_txs) s = do
    tx ← Codec.deserialize (signed_deserialize c) core_tx.payload
    account ← state.get_account tx.signer s
    selected ← select_next core_txs s
    ok (if tx.transaction.nonce == account.nonce + 1 then core_tx ∷ selected else selected)

  -- A block with transactions, an empty block for events that are pending, or none.
  unfoldable pub choose : TransactionList → TransactionList → Option TransactionList
  choose (tx ∷ txs) pending = some (tx ∷ txs)
  choose [] (tx ∷ txs) = some []
  choose [] [] = none

  -- `now` is the time in seconds.
  unfoldable pub select_transactions : ℕ → TransactionList → State → Result (Option TransactionList)
  unfolding select_next provided choose
  select_transactions now core_txs s = do
    selected ← select_next core_txs s
    block_time ← state.get_latest_block_timestamp s
    event_time ← state.get_latest_event_timestamp s
    nonce ← state.get_event_nonce s
    ok (
        choose
          (selected
            ++ (if ltb event_time block_time
                then provided events event_time block_time (nonce + 1)
                else []))
          (if ltb event_time now then provided events event_time now (nonce + 1) else []))
