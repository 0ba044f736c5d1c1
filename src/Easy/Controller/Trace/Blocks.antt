-- ===== src/Easy/Controller/Trace/Blocks.antt =====
-- packages/easy-framework/src/controller.ts: the loop of executeTransactions.
use uniqys_kit.Prelude.{
  ◌==◌, ==→eq, ◌≡◌, refl, ap, sym, Option, List, [], ◌∷◌, ◌++◌, Result, ok, err, >>=-eq-ok,
  ok-injective, true, false, Bool-cases, inl, inr, arith, subst,
}
use uniqys_kit.Serialize.Codec
use uniqys_kit.Signature.{Hash, Crypto}
use uniqys_kit.Blockchain.Transaction
use uniqys_kit.Blockchain.Transaction.{Transaction, TransactionList}
use uniqys_kit.Blockchain.Blocks.{BlockHeader}
use uniqys_kit.Easy.Memcached.{read_only}
use uniqys_kit.Easy.Transactions
use uniqys_kit.Easy.Transactions.{signed_deserialize}
use uniqys_kit.Easy.Controller.{
  ApplicationState, Application, EventProvider, try_normal, try_event, settle, execute_normal,
  execute_event, execute_one, execute_each,
}
use uniqys_kit.Easy.Controller.Trace.{
  Accepted, of_signer, of_event, Executes, at_end, valid, refused,
}
use uniqys_kit.Easy.Controller.Trace.Single.{
  try_normal-Asked, Asked-try_normal, try_event-Happened, Happened-try_event,
}

module _ (c : Crypto) {State : Type 0} (state : ApplicationState State) (app : Application State)
    (events : Option EventProvider) (header : BlockHeader) where
  -- Either it is valid, or it has been rolled back.
  data Done (s : State) (tx : Transaction) (t : State) (hashes : List Hash) : Type 0 where
    done :
        (h : Hash) (made : State)
        → Accepted c state app header s tx h made
        → t ≡ state.change_mode read_only made
        → hashes ≡ h ∷ []
        → Done s tx t hashes
    undone :
        (made : State)
        → t ≡ state.change_mode read_only (state.rollback (state.root s) made)
        → hashes ≡ []
        → Done s tx t hashes

  settle-Done :
      (s t : State) (tx : Transaction) (h : Hash) (hashes : List Hash)
      (tried : State × Result (Unit {0}))
      → ((u : State) → tried ≡ (u, ok tt) → Accepted c state app header s tx h u)
      → settle c state app events (state.root s) h tried ≡ (t, hashes)
      → Done s tx t hashes
  unfolding settle
  settle-Done s t tx h hashes (u, ok tt) accepts is =
      done h u (accepts u refl) (sym (ap (λ t. t.0) is)) (sym (ap (λ t. t.1) is))
  settle-Done s t tx h hashes (u, err e) accepts is =
      undone u (sym (ap (λ t. t.0) is)) (sym (ap (λ t. t.1) is))

  execute_normal-Done :
      (tx : Transaction) (s t : State) (hashes : List Hash)
      → tx.kind ≡ Transaction.normal
      → execute_normal c state app events tx header s ≡ ok (t, hashes)
      → Done s tx t hashes
  unfolding execute_normal
  execute_normal-Done tx s t hashes kind e =
      let (signed, read, e₁) =
        >>=-eq-ok (Codec.deserialize (signed_deserialize c) tx.payload) _ e in
      let (h, hashed, e₂) = >>=-eq-ok (Transaction.hash c tx) _ e₁ in
      settle-Done s t tx h hashes (try_normal c state app events signed header h s)
        (λ u is.
          let a = try_normal-Asked c state app events header h signed s u is in
          of_signer kind read hashed a.found a.next a.stores a.asks a.keeps a.succeeds)
        (ok-injective e₂)

  execute_event-Done :
      (tx : Transaction) (s t : State) (hashes : List Hash)
      → tx.kind ≡ Transaction.event
      → execute_event c state app events tx header s ≡ ok (t, hashes)
      → Done s tx t hashes
  unfolding execute_event
  execute_event-Done tx s t hashes kind e =
      let (event, read, e₁) =
        >>=-eq-ok (Codec.deserialize Transactions.deserialize tx.payload) _ e in
      let (h, hashed, e₂) = >>=-eq-ok (Transaction.hash c tx) _ e₁ in
      settle-Done s t tx h hashes (try_event c state app events event header h s)
        (λ u is.
          let a = try_event-Happened c state app events header h event s u is in
          of_event kind read hashed a.found a.next a.stores a.asks a.succeeds)
        (ok-injective e₂)

  execute_one-Done :
      (tx : Transaction) (s t : State) (hashes : List Hash)
      → execute_one c state app events tx header s ≡ ok (t, hashes)
      → Done s tx t hashes
  unfolding execute_one
  execute_one-Done tx s t hashes e = elim (Bool-cases (tx.kind == Transaction.normal)) [
    | inl normal ↦ execute_normal-Done tx s t hashes (==→eq _ _ normal) (rw normal at e)
    | inr other ↦ elim (Bool-cases (tx.kind == Transaction.event)) [
      | inl event ↦ execute_event-Done tx s t hashes (==→eq _ _ event) (rw (other, event) at e)
      | inr unknown ↦ (let wrong = rw (other, unknown) at e in cc)
    ]
  ]

  -- One that is valid is not refused.
  Accepted-execute_one :
      (tx : Transaction) (s u : State) (h : Hash)
      → Accepted c state app header s tx h u
      → execute_one c state app events tx header s ≡ ok (state.change_mode read_only u, h ∷ [])
  unfolding execute_one execute_normal execute_event settle
  Accepted-execute_one tx s u h
        (of_signer {signed = signed} kind read hashed found next stores asks keeps fine) =
      let tried = Asked-try_normal c state app events header h signed s u (record {
        account = _;
        stored = _;
        asked = _;
        response = _;
        found = found;
        next = next;
        stores = stores;
        asks = asks;
        keeps = keeps;
        succeeds = fine;
      }) in
      let same : (tx.kind == Transaction.normal) ≡ true = ground (arith, kind) in
      rw (same, read, hashed, tried) refl
  Accepted-execute_one tx s u h
        (of_event {event = event} kind read hashed found next stores asks fine) =
      let tried = Happened-try_event c state app events header h event s u (record {
        nonce = _;
        stored = _;
        response = _;
        found = found;
        next = next;
        stores = stores;
        asks = asks;
        succeeds = fine;
      }) in
      let other : (tx.kind == Transaction.normal) ≡ false = ground (arith, kind) in
      let same : (tx.kind == Transaction.event) ≡ true = ground (arith, kind) in
      rw (other, same, read, hashed, tried) refl

  hashes_of : Result (State × List Hash) → List Hash
  hashes_of (ok (s, hashes)) = hashes
  hashes_of (err e) = []

  some-nil :
      (h : Hash) (s t : State) (r : Result (State × List Hash))
      → r ≡ ok (s, h ∷ [])
      → r ≡ ok (t, [])
      → ⊥
  unfolding hashes_of
  some-nil h s t r e e' = let some_ = ap hashes_of e in let none_ = ap hashes_of e' in cc

  then-Executes :
      (tx : Transaction) (txs : TransactionList) (s s₁ t : State) (hashes more : List Hash)
      → execute_one c state app events tx header s ≡ ok (s₁, hashes)
      → Done s tx s₁ hashes
      → Executes c state app header s₁ txs more t
      → Executes c state app header s (tx ∷ txs) (hashes ++ more) t
  then-Executes tx txs s s₁ t hashes more e (done h made accepted state_of is) rest =
      rw is (valid accepted (subst (λ x. Executes c state app header x txs more t) state_of rest))
  then-Executes tx txs s s₁ t hashes more e (undone made state_of is) rest = rw is (
      refused
        (λ h u accepted.
          some-nil h (state.change_mode read_only u) s₁ (execute_one c state app events tx header s)
            (Accepted-execute_one tx s u h accepted) (rw is at e))
        (subst (λ x. Executes c state app header x txs more t) state_of rest))

  -- Where the transactions of a block are executed without an error, each that is reported as valid
  -- is signed and has the next nonce of its signer, whose account with that nonce is stored before
  -- the application is asked, and then the response, or is an event that has the next nonce of
  -- events; and its response is no failure. Each that is not reported is not so, and the state goes
  -- back to the root of before it. After each the mode is for reading.
  pub execute_each-Executes :
      (txs : TransactionList) (s t : State) (hashes : List Hash)
      → execute_each c state app events txs header s ≡ ok (t, hashes)
      → Executes c state app header s txs hashes t
  unfolding execute_each
  execute_each-Executes [] s t hashes e =
      let is = ok-injective e in
      subst (λ (x : State × List Hash). Executes c state app header s [] x.1 x.0) is at_end
  execute_each-Executes (tx ∷ txs) s t hashes e =
      let ((s₁, first), e₁, e₂) = >>=-eq-ok (execute_one c state app events tx header s) _ e in
      let ((s₂, more), e₃, e₄) = >>=-eq-ok (execute_each c state app events txs header s₁) _ e₂ in
      let rest = execute_each-Executes txs s₁ s₂ more e₃ in
      subst (λ (x : State × List Hash). Executes c state app header s (tx ∷ txs) x.1 x.0)
        (ok-injective e₄)
        (then-Executes tx txs s s₁ s₂ first more e₁ (execute_one-Done tx s s₁ first e₁) rest)
