-- ===== src/Easy/Controller/Trace/Single.antt =====
-- packages/easy-framework/src/controller.ts: what executeTransactions tries for a transaction that is
-- valid, step by step.
use uniqys_kit.Prelude.{
  ℕ, ◌+◌, ◌==◌, ==→eq, ◌≡◌, refl, ap, true, false, not, Option, leb, ltb, Result, ok, err, guard,
  guard-eq-ok, Bool-cases, inl, inr, arith, response_status,
}
use uniqys_kit.Signature.{Hash, Crypto}
use uniqys_kit.Blockchain.Blocks.{BlockHeader}
use uniqys_kit.Easy.Account.{Account, increment_nonce}
use uniqys_kit.Easy.Http.{HttpResponse}
use uniqys_kit.Easy.Memcached.{read_write}
use uniqys_kit.Easy.Transactions.{EasyTransaction, SignedTransaction}
use uniqys_kit.Easy.Controller.{
  ApplicationState, Application, EventProvider, is_failure, check_status, stored_result,
  keep_response, run_request, try_account, try_normal, event_response, run_event, try_nonce,
  try_event,
}
use uniqys_kit.Easy.Controller.Trace.{Succeeds}

guard-Succeeds :
    (response : HttpResponse)
    → guard (not (is_failure response.status)) response_status ≡ ok tt
    → Succeeds response
unfolding is_failure
guard-Succeeds response e =
    let passed = guard-eq-ok _ _ e in
    elim (Bool-cases (leb 400 response.status)) [
      | inl high ↦ inr (ground arith)
      | inr low ↦ inl (ground arith)
    ]

Succeeds-guard :
    (response : HttpResponse)
    → Succeeds response
    → guard (not (is_failure response.status)) response_status ≡ ok tt
unfolding is_failure
Succeeds-guard response (inl low) =
    let no : leb 400 response.status ≡ false = ground arith in rw no refl
Succeeds-guard response (inr high) =
    let yes : leb 400 response.status ≡ true = ground arith in
    let no : ltb response.status 600 ≡ false = ground arith in rw (yes, no) refl

module _ (c : Crypto) {State : Type 0} (state : ApplicationState State) (app : Application State)
    (events : Option EventProvider) (header : BlockHeader) (h : Hash) where
  -- What try_account has done where it has not thrown.
  pub record Asked (tx : SignedTransaction) (s u : State) : Type 0 where
    pub account : Account
    pub stored : State
    pub asked : State
    pub response : HttpResponse
    pub found : state.get_account tx.signer s ≡ ok account
    pub next : tx.transaction.nonce ≡ account.nonce + 1
    pub stores :
        state.set_account tx.signer (record account { nonce = account.nonce + 1 }) s ≡ ok stored
    pub asks : app.call tx header h (state.change_mode read_write stored) ≡ (asked, ok response)
    pub keeps :
        state.set_result h (record { height = header.height; response = response }) asked ≡ ok u
    pub succeeds : Succeeds response

  stored_result-parts :
      (before u : State) (response : HttpResponse) (o : Result State)
      → stored_result c state app events before response o ≡ (u, ok tt)
      → (o ≡ ok u) × Succeeds response
  unfolding stored_result check_status
  stored_result-parts before u response (err e) is = cc
  stored_result-parts before u response (ok s) is =
      (ap (λ t. ok t.0) is, guard-Succeeds response (ap (λ t. t.1) is))

  keep_response-parts :
      (u : State) (ran : State × Result HttpResponse)
      → keep_response c state app events header h ran ≡ (u, ok tt)
      → (asked : State) × (response : HttpResponse) × (ran ≡ (asked, ok response))
        × (state.set_result h (record { height = header.height; response = response }) asked ≡ ok u)
        × Succeeds response
  unfolding keep_response
  keep_response-parts u (s, err e) is = cc
  keep_response-parts u (s, ok response) is =
      let (keeps, fine) = stored_result-parts s u response _ is in (s, response, refl, keeps, fine)

  run_request-parts :
      (tx : SignedTransaction) (before u : State) (o : Result State)
      → run_request c state app events tx header h before o ≡ (u, ok tt)
      → (stored : State) × (o ≡ ok stored)
        × (keep_response c state app events header h
              (app.call tx header h (state.change_mode read_write stored))
            ≡ (u, ok tt))
  unfolding run_request
  run_request-parts tx before u (err e) is = cc
  run_request-parts tx before u (ok s) is = (s, refl, is)

  try_account-Asked :
      (tx : SignedTransaction) (s u : State) (o : Result Account)
      → state.get_account tx.signer s ≡ o
      → try_account c state app events tx header h s o ≡ (u, ok tt)
      → Asked tx s u
  unfolding try_account increment_nonce
  try_account-Asked tx s u (err e) found is = cc
  try_account-Asked tx s u (ok account) found is =
      elim (Bool-cases (tx.transaction.nonce == account.nonce + 1)) [
        | inl next ↦
            let (stored, stores, kept) = run_request-parts tx s u _ (rw next at is) in
            let (asked, response, asks, keeps, fine) = keep_response-parts u _ kept in
            record {
              account = account;
              stored = stored;
              asked = asked;
              response = response;
              found = found;
              next = ==→eq _ _ next;
              stores = stores;
              asks = asks;
              keeps = keeps;
              succeeds = fine;
            }
        | inr other ↦ (let wrong = rw other at is in cc)
      ]

  pub try_normal-Asked :
      (tx : SignedTransaction) (s u : State)
      → try_normal c state app events tx header h s ≡ (u, ok tt)
      → Asked tx s u
  unfolding try_normal
  try_normal-Asked tx s u is = try_account-Asked tx s u (state.get_account tx.signer s) refl is

  pub Asked-try_normal :
      (tx : SignedTransaction) (s u : State)
      → Asked tx s u
      → try_normal c state app events tx header h s ≡ (u, ok tt)
  unfolding try_normal try_account increment_nonce run_request keep_response stored_result
      check_status
  Asked-try_normal tx s u a =
      let same : (tx.transaction.nonce == a.account.nonce + 1) ≡ true = ground (arith, a.next) in
      rw (a.found, same, a.stores, a.asks, a.keeps, Succeeds-guard a.response a.succeeds) refl

  -- What try_nonce has done where it has not thrown.
  pub record Happened (tx : EasyTransaction) (s u : State) : Type 0 where
    pub nonce : ℕ
    pub stored : State
    pub response : HttpResponse
    pub found : state.get_event_nonce s ≡ ok nonce
    pub next : tx.nonce ≡ nonce + 1
    pub stores : state.increment_event_nonce s ≡ ok stored
    pub asks : app.call_event tx header h (state.change_mode read_write stored) ≡ (u, ok response)
    pub succeeds : Succeeds response

  event_response-parts :
      (u : State) (ran : State × Result HttpResponse)
      → event_response c state app events ran ≡ (u, ok tt)
      → (response : HttpResponse) × (ran ≡ (u, ok response)) × Succeeds response
  unfolding event_response check_status
  event_response-parts u (s, err e) is = cc
  event_response-parts u (s, ok response) is =
      (response, ap (λ t. (t.0, ok response)) is, guard-Succeeds response (ap (λ t. t.1) is))

  run_event-parts :
      (tx : EasyTransaction) (before u : State) (o : Result State)
      → run_event c state app events tx header h before o ≡ (u, ok tt)
      → (stored : State) × (o ≡ ok stored)
        × (event_response c state app events
              (app.call_event tx header h (state.change_mode read_write stored))
            ≡ (u, ok tt))
  unfolding run_event
  run_event-parts tx before u (err e) is = cc
  run_event-parts tx before u (ok s) is = (s, refl, is)

  try_nonce-Happened :
      (tx : EasyTransaction) (s u : State) (o : Result ℕ)
      → state.get_event_nonce s ≡ o
      → try_nonce c state app events tx header h s o ≡ (u, ok tt)
      → Happened tx s u
  unfolding try_nonce
  try_nonce-Happened tx s u (err e) found is = cc
  try_nonce-Happened tx s u (ok nonce) found is = elim (Bool-cases (tx.nonce == nonce + 1)) [
    | inl next ↦
        let (stored, stores, ran) = run_event-parts tx s u _ (rw next at is) in
        let (response, asks, fine) = event_response-parts u _ ran in
        record {
          nonce = nonce;
          stored = stored;
          response = response;
          found = found;
          next = ==→eq _ _ next;
          stores = stores;
          asks = asks;
          succeeds = fine;
        }
    | inr other ↦ (let wrong = rw other at is in cc)
  ]

  pub try_event-Happened :
      (tx : EasyTransaction) (s u : State)
      → try_event c state app events tx header h s ≡ (u, ok tt)
      → Happened tx s u
  unfolding try_event
  try_event-Happened tx s u is = try_nonce-Happened tx s u (state.get_event_nonce s) refl is

  pub Happened-try_event :
      (tx : EasyTransaction) (s u : State)
      → Happened tx s u
      → try_event c state app events tx header h s ≡ (u, ok tt)
  unfolding try_event try_nonce run_event event_response check_status
  Happened-try_event tx s u a =
      let same : (tx.nonce == a.nonce + 1) ≡ true = ground (arith, a.next) in
      rw (a.found, same, a.stores, a.asks, Succeeds-guard a.response a.succeeds) refl
