-- ===== src/ChainCore/Executor.antt =====
-- packages/chain-core/src/executor.ts: Executor, over what it reads of the chain: its height, and the
-- application's state hash in a header. The application is a function of the block's height.
use uniqys_kit.Prelude.{
  ℕ, ◌+◌, ◌<◌, ◌≡◌, ◌==◌, ltb, if◌then◌else◌, not, Result, ok, ◌>>=◌, ◌>>◌, guard, >>=-eq-ok,
  ok-injective, subst, guard-eq-ok, need_reset_app, app_hash_mismatch, block_height_mismatch, arith,
  Bool-cases, inl, inr, lt→ltb, ==→eq,
}
use uniqys_kit.Types.FixedBytes.{equals, equals→eq}
use uniqys_kit.Signature.{Hash}

pub record AppState : Type 0 where
  pub height : ℕ
  pub hash : Hash

-- `header_hash n` is the appStateHash of the header of block n, which may not be found.
module _ (header_hash : ℕ → Result Hash) where
  -- The application's state after a block is in the header of the next, if that is known.
  unfoldable pub check_hash : ℕ → AppState → Result (Unit {0})
  check_hash known_height state =
      if ltb state.height known_height
      then (do
        expect ← header_hash (state.height + 1)
        guard (equals state.hash expect) app_hash_mismatch)
      else ok tt

  unfoldable pub initialize : ℕ → AppState → Result AppState
  unfolding check_hash
  initialize height state = do
    guard (not (ltb height state.height)) need_reset_app
    check_hash height state
    ok state

  -- The state before and the result of the application for the next block; the state after.
  unfoldable pub finish_block : ℕ → ℕ → AppState → Result AppState
  unfolding check_hash
  finish_block known_height height state = do
    guard (state.height == height) block_height_mismatch
    check_hash known_height state
    ok state

  -- The chain's height is read twice, and may be higher the second time.
  unfoldable pub execute_block_transactions :
      (ℕ → Result AppState) → ℕ → ℕ → AppState → Result AppState
  unfolding finish_block
  execute_block_transactions execute height known_height last =
      if height == last.height
      then ok last
      else (do state ← execute (last.height + 1); finish_block known_height (last.height + 1) state)

  check_hash-lem :
      (known : ℕ) (state : AppState) (expect : Hash)
      → check_hash known state ≡ ok tt
      → state.height < known
      → header_hash (state.height + 1) ≡ ok expect
      → state.hash ≡ expect
  unfolding check_hash
  check_hash-lem known state expect h below e =
      equals→eq _ _ (guard-eq-ok _ _ (rw (lt→ltb _ _ below, e) at h))

  finish_block-lem :
      (known height : ℕ) (state next : AppState)
      → finish_block known height state ≡ ok next
      → (next.height ≡ height) × (check_hash known next ≡ ok tt)
  unfolding finish_block
  finish_block-lem known height state next h =
      let (_, e₁, h₁) = >>=-eq-ok (guard (state.height == height) block_height_mismatch) _ h in
      let (_, e₂, h₂) = >>=-eq-ok (check_hash known state) _ h₁ in
      subst (λ s. (s.height ≡ height) × (check_hash known s ≡ ok tt)) (ok-injective h₂)
        (==→eq _ _ (guard-eq-ok _ _ e₁), e₂)

  -- For a chain higher than the application, a step of the executor that does not throw makes the
  -- application's state that of the next block, with the hash that the header of the block after it
  -- has, if the chain is known to be higher still and that header is found.
  pub execute-height :
      (execute : ℕ → Result AppState) (height known : ℕ) (last next : AppState) (expect : Hash)
      → last.height < height
      → execute_block_transactions execute height known last ≡ ok next
      → next.height < known
      → header_hash (next.height + 1) ≡ ok expect
      → (next.height ≡ last.height + 1) × (next.hash ≡ expect)
  unfolding execute_block_transactions
  execute-height execute height known last next expect below h more e =
      elim (Bool-cases (height == last.height)) [
        | inl f ↦ absurd (omega (arith, below, ==→eq height last.height f))
        | inr f ↦
            let (state, e₁, h₁) = >>=-eq-ok (execute (last.height + 1)) _ (rw f at h) in
            let (same, checked) = finish_block-lem known (last.height + 1) state next h₁ in
            (same, check_hash-lem known next expect checked more e)
      ]
