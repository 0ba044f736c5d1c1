-- ===== src/Easy/Controller/Trace.antt =====
-- packages/easy-framework/src/controller.ts: what the loop of executeTransactions is to do with each
-- transaction of a block, whatever the state and the application are.
pub mod Single
pub mod Blocks
use uniqys_kit.Prelude.{ℕ, ◌+◌, ◌<◌, ◌≤◌, ◌≡◌, ◌⊎◌, List, [], ◌∷◌, Option, Result, ok}
use uniqys_kit.Serialize.Codec
use uniqys_kit.Signature.{Hash, Crypto}
use uniqys_kit.Blockchain.Transaction
use uniqys_kit.Blockchain.Transaction.{Transaction, TransactionList}
use uniqys_kit.Blockchain.Blocks.{BlockHeader}
use uniqys_kit.Easy.Account.{Account}
use uniqys_kit.Easy.Http.{HttpResponse}
use uniqys_kit.Easy.Memcached.{read_write, read_only}
use uniqys_kit.Easy.Transactions
use uniqys_kit.Easy.Transactions.{EasyTransaction, SignedTransaction, signed_deserialize}
use uniqys_kit.Easy.Controller.{ApplicationState, Application}

abbrev pub Succeeds : HttpResponse → Type 0
Succeeds response = (response.status < 400) ⊎ (600 ≤ response.status)

module _ (c : Crypto) {State : Type 0} (state : ApplicationState State) (app : Application State)
    (header : BlockHeader) where
  -- A signed transaction is valid that has the next nonce of its signer, whose nonce is stored
  -- before the application is asked, and whose response is stored and no failure; an event, that
  -- has the next nonce of events, and whose response is no failure. The last state is that before
  -- the mode is set back.
  pub data Accepted (s : State) (tx : Transaction) : Hash → State → Type 0 where
    of_signer :
        {signed : SignedTransaction} {account : Account} {response : HttpResponse}
        {stored asked kept : State} {h : Hash}
        → tx.kind ≡ Transaction.normal
        → Codec.deserialize (signed_deserialize c) tx.payload ≡ ok signed
        → Transaction.hash c tx ≡ ok h
        → state.get_account signed.signer s ≡ ok account
        → signed.transaction.nonce ≡ account.nonce + 1
        → state.set_account signed.signer (record account { nonce = account.nonce + 1 }) s
          ≡ ok stored
        → app.call signed header h (state.change_mode read_write stored) ≡ (asked, ok response)
        → state.set_result h (record { height = header.height; response = response }) asked
          ≡ ok kept
        → Succeeds response
        → Accepted s tx h kept
    of_event :
        {event : EasyTransaction} {nonce : ℕ} {response : HttpResponse} {stored asked : State}
        {h : Hash}
        → tx.kind ≡ Transaction.event
        → Codec.deserialize Transactions.deserialize tx.payload ≡ ok event
        → Transaction.hash c tx ≡ ok h
        → state.get_event_nonce s ≡ ok nonce
        → event.nonce ≡ nonce + 1
        → state.increment_event_nonce s ≡ ok stored
        → app.call_event event header h (state.change_mode read_write stored) ≡ (asked, ok response)
        → Succeeds response
        → Accepted s tx h asked

  -- A transaction that is valid adds its hash and keeps its state, and any other is rolled back to
  -- the root of before; both leave the state for reading only.
  pub data Executes : State → TransactionList → List Hash → State → Type 0 where
    at_end : {s : State} → Executes s [] [] s
    valid :
        {s made t : State} {tx : Transaction} {txs : TransactionList} {h : Hash}
        {hashes : List Hash}
        → Accepted s tx h made
        → Executes (state.change_mode read_only made) txs hashes t
        → Executes s (tx ∷ txs) (h ∷ hashes) t
    refused :
        {s made t : State} {tx : Transaction} {txs : TransactionList} {hashes : List Hash}
        → ((h : Hash) (u : State) → ¬ Accepted s tx h u)
        → Executes (state.change_mode read_only (state.rollback (state.root s) made)) txs hashes t
        → Executes s (tx ∷ txs) hashes t
