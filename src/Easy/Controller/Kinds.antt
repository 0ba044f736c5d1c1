-- ===== src/Easy/Controller/Kinds.antt =====
-- packages/easy-framework/src/controller.ts: transactions of a kind that executeTransactions does not know.
use uniqys_kit.Prelude.{
  ℕ, ◌+◌, ◌==◌, ==→eq, ◌≡◌, ◌≢◌, refl, Option, List, [], ◌∷◌, ◌++◌, Result, ok, ◌>>=◌, >>=-eq-ok,
  Bool-cases, Result-cases, inl, inr, arith, length,
}
use uniqys_kit.Serialize.Codec
use uniqys_kit.Serialize.Codec.{serialize-bytes}
use uniqys_kit.Signature.{Hash, Crypto}
use uniqys_kit.Blockchain.Transaction
use uniqys_kit.Blockchain.Transaction.{
  Transaction, TransactionList, InRange, Fits-transaction, bytes-Fits,
}
use uniqys_kit.Blockchain.Blocks.{BlockHeader}
use uniqys_kit.Easy.Transactions.{signed_deserialize}
use uniqys_kit.Easy.Controller.{
  ApplicationState, Application, EventProvider, execute_one, execute_each, check_transaction,
  validate_transaction, select_next,
}

-- The transaction with the same data that is signed by an account.
abbrev pub as_normal : Transaction → Transaction
as_normal tx = record { kind = Transaction.normal; payload = tx.payload }

module _ {State : Type 0} (c : Crypto) (state : ApplicationState State) (app : Application State)
    (events : Option EventProvider) where
  validate-as_normal :
      (limit : ℕ) (tx : Transaction) (s : State)
      → InRange tx
      → validate_transaction c state app events limit tx s
        ≡ validate_transaction c state app events limit (as_normal tx) s
  unfolding validate_transaction check_transaction
  validate-as_normal limit tx s fits =
      let fits' : InRange (as_normal tx) = record { kind = omega arith; payload = fits.payload } in
      rw
        (
          serialize-bytes Transaction.serialize Transaction.deserialize tx
              (Fits-transaction tx fits),
          serialize-bytes Transaction.serialize Transaction.deserialize (as_normal tx)
              (Fits-transaction (as_normal tx) fits'),
          bytes-Fits tx fits,
          bytes-Fits (as_normal tx) fits',
        )
        refl

  -- How many of one transaction are selected.
  abbrev pub selected_of : Transaction → State → Result ℕ
  selected_of tx s = do txs ← select_next c state app events (tx ∷ []) s; ok (length txs)

  selected-as_normal :
      (tx : Transaction) (s : State) → selected_of tx s ≡ selected_of (as_normal tx) s
  unfolding select_next
  selected-as_normal tx s =
      elim (Result-cases (Codec.deserialize (signed_deserialize c) tx.payload)) [
        | inl (signed, read) ↦ rw read (elim (Result-cases (state.get_account signed.signer s)) [
          | inl (account, got) ↦
              rw got (elim (Bool-cases (signed.transaction.nonce == account.nonce + 1)) [
                | inl next ↦ rw next refl
                | inr other ↦ rw other refl
              ])
          | inr (e, got) ↦ rw got refl
        ])
        | inr (e, read) ↦ rw read refl
      ]

  execute_one-unknown :
      (tx : Transaction) (header : BlockHeader) (s : State) (r : State × List Hash)
      → tx.kind ≢ Transaction.normal
      → tx.kind ≢ Transaction.event
      → ¬ (execute_one c state app events tx header s ≡ ok r)
  unfolding execute_one
  execute_one-unknown tx header s r no_normal no_event e =
      elim (Bool-cases (tx.kind == Transaction.normal)) [
        | inl same ↦ no_normal (==→eq tx.kind Transaction.normal same)
        | inr other ↦ elim (Bool-cases (tx.kind == Transaction.event)) [
          | inl same ↦ no_event (==→eq tx.kind Transaction.event same)
          | inr unknown ↦ cc (rw (other, unknown) at e)
        ]
      ]

  execute_each-unknown :
      (before after : TransactionList) (tx : Transaction) (header : BlockHeader) (s : State)
      (r : State × List Hash)
      → tx.kind ≢ Transaction.normal
      → tx.kind ≢ Transaction.event
      → ¬ (execute_each c state app events (before ++ tx ∷ after) header s ≡ ok r)
  unfolding execute_each
  execute_each-unknown [] after tx header s r no_normal no_event e =
      let (done, e₁, e₂) = >>=-eq-ok (execute_one c state app events tx header s) _ e in
      execute_one-unknown tx header s done no_normal no_event e₁
  execute_each-unknown (t ∷ before) after tx header s r no_normal no_event e =
      let ((s₁, first), e₁, e₂) = >>=-eq-ok (execute_one c state app events t header s) _ e in
      let (done, e₃, e₄) =
        >>=-eq-ok (execute_each c state app events (before ++ tx ∷ after) header s₁) _ e₂ in
      execute_each-unknown before after tx header s₁ done no_normal no_event e₃

  -- A transaction that fits the wire format and is of a kind that is neither the one of signed
  -- transactions nor the one of events: validateTransaction accepts it, and selectTransactions
  -- selects it, just as the one with the same data that is signed, and the transactions of a block
  -- that holds it are never executed without an error.
  pub validate_transaction-unknown :
      (limit : ℕ) (before after : TransactionList) (tx : Transaction) (header : BlockHeader)
      (s t : State) (r : State × List Hash)
      → InRange tx
      → tx.kind ≢ Transaction.normal
      → tx.kind ≢ Transaction.event
      → (validate_transaction c state app events limit tx s
          ≡ validate_transaction c state app events limit (as_normal tx) s)
        × (selected_of tx s ≡ selected_of (as_normal tx) s)
        × ¬ (execute_each c state app events (before ++ tx ∷ after) header t ≡ ok r)
  validate_transaction-unknown limit before after tx header s t r fits no_normal no_event = (
    validate-as_normal limit tx s fits,
    selected-as_normal tx s,
    execute_each-unknown before after tx header t r no_normal no_event,
  )
