-- ===== src/ChainCore/Sync/Linkage.antt =====
-- packages/chain-core/src/synchronizer.ts: the headers that catchUpHeaders accepts, and its end.
use uniqys_kit.Prelude.{
  ℕ, ◌+◌, ◌≤◌, ◌<◌, ◌≡◌, ◌≢◌, refl, sym, ap, subst, ◌∙◌, List, [], ◌∷◌, reverse, true, false, leb,
  leb→le, length, All, arith, Bool-cases, inl, inr, ok, >>=-eq-ok, ok-injective,
}
use mathlib.Core.List.{reverse-reverse}
use uniqys_kit.Types.FixedBytes.{Bytes}
use uniqys_kit.Signature.{Crypto}
use uniqys_kit.Store.Interface.{Store, StoreLaws}
use uniqys_kit.Blockchain.Blocks.{BlockHeader, HeaderInRange}
use uniqys_kit.Blockchain.BlockStore.{BlockStore, set_header}
use uniqys_kit.ChainCore.Sync.Headers.{
  Round, Progress, accept_header, accept_headers, run_rounds, catch_up_headers, Linked, top, under,
  accept_header-parts,
}
use uniqys_kit.ChainCore.Sync.Stored.{All-reverse, set_header-found, set_header-Linked}

module _ {State : Type 0} (c : Crypto) (store : Store State Bytes) where
  accept_headers-heights :
      (headers : List BlockHeader) (p p' : Progress State)
      → accept_headers c store headers p ≡ ok p'
      → (p'.last.height + length headers ≡ p.last.height) × (p'.is_done ≡ p.is_done)
  unfolding accept_headers
  accept_headers-heights [] p p' e =
      let is : p ≡ p' = ok-injective e in
      (omega (arith, ap (λ t. t.last.height) is), sym (ap (λ t. t.is_done) is))
  accept_headers-heights (header ∷ headers) p p' e =
      let (q, e₁, e₂) = >>=-eq-ok (accept_header c store header p) _ e in
      let (below, hashed, last, written, done) = accept_header-parts c store header p q e₁ in
      let (more, same) = accept_headers-heights headers q p' e₂ in
      let lower : q.last.height ≡ header.height = ap (λ (t : BlockHeader). t.height) last in
      (omega (arith, below, more, lower), same ∙ done)

  reverse-positive :
      (headers xs : List BlockHeader) → headers ≢ [] → reverse headers ≡ xs → 0 < length xs
  reverse-positive headers [] some_ e =
      absurd (some_ (sym (reverse-reverse headers) ∙ ap reverse e))
  reverse-positive headers (x ∷ xs) some_ e = omega arith

  run_rounds-stops :
      (rounds : List Round) (p p' : Progress State)
      → run_rounds c store rounds p ≡ ok p'
      → All (λ r. r.headers ≢ []) rounds
      → p.last.height < length rounds
      → p'.is_done ≡ true
  unfolding run_rounds
  run_rounds-stops [] p p' e some_ enough = absurd (omega arith)
  run_rounds-stops (round ∷ rounds) p p' e (some_, more) enough =
      elim (Bool-cases (leb p.last.height (round.height + 1))) [
        | inl stop ↦ sym (ap (λ t. t.is_done) (ok-injective (rw stop at e)))
        | inr go ↦
            let backward = reverse round.headers in
            let (q, e₁, e₂) = >>=-eq-ok (accept_headers c store backward p) _ (rw go at e) in
            let (lower, same) = accept_headers-heights backward p q e₁ in
            let positive = reverse-positive round.headers backward some_ refl in
            run_rounds-stops rounds q p' e₂ more (omega (arith, lower, positive))
      ]

  -- If no answer of the provider is empty, and there are more rounds than the height of the target,
  -- then catchUpHeaders, where it does not throw, has ended.
  pub catch_up_headers-stops :
      (rounds : List Round) (target : BlockHeader) (blocks : BlockStore State) (p : Progress State)
      → catch_up_headers c store rounds target blocks ≡ ok p
      → All (λ r. r.headers ≢ []) rounds
      → target.height < length rounds
      → p.is_done ≡ true
  unfolding catch_up_headers
  catch_up_headers-stops rounds target blocks p e some_ enough =
      let (s, e₁, e₂) = >>=-eq-ok (set_header store target.height target blocks) _ e in
      run_rounds-stops rounds _ p e₂ some_ enough

  -- The lowest header is no higher than the one above what a round knew.
  pub data Reached (lowest : ℕ) : List Round → Type 0 where
    now :
        (round : Round) (rounds : List Round)
        → lowest ≤ round.height + 1
        → Reached lowest (round ∷ rounds)
    later :
        (round : Round) (rounds : List Round)
        → Reached lowest rounds
        → Reached lowest (round ∷ rounds)

  module _ (laws : StoreLaws State Bytes store) where
    abbrev IsLinked : BlockHeader → Progress State → Type 0
    IsLinked target p = Linked c store target p.blocks p.last

    accept_header-IsLinked :
        (target header : BlockHeader) (p p' : Progress State)
        → HeaderInRange target
        → HeaderInRange header
        → accept_header c store header p ≡ ok p'
        → IsLinked target p
        → IsLinked target p'
    accept_header-IsLinked target header p p' fits fits' e linked =
        let (below, hashed, last, written, done) = accept_header-parts c store header p p' e in
        let (own, others) = set_header-found c store laws header p.blocks p'.blocks fits' written in
        subst (Linked c store target p'.blocks) (sym last) (
          under header p.last own below hashed (
            set_header-Linked c store laws target header p.blocks p'.blocks p.last fits fits'
              written (omega (arith, below)) linked))

    accept_headers-IsLinked :
        (target : BlockHeader) (headers : List BlockHeader) (p p' : Progress State)
        → HeaderInRange target
        → All HeaderInRange headers
        → accept_headers c store headers p ≡ ok p'
        → IsLinked target p
        → IsLinked target p'
    unfolding accept_headers
    accept_headers-IsLinked target [] p p' fits each e linked =
        subst (IsLinked target) (ok-injective e) linked
    accept_headers-IsLinked target (header ∷ headers) p p' fits (first, each) e linked =
        let (q, e₁, e₂) = >>=-eq-ok (accept_header c store header p) _ e in
        accept_headers-IsLinked target headers q p' fits each e₂
          (accept_header-IsLinked target header p q fits first e₁ linked)

    run_rounds-Linked :
        (target : BlockHeader) (rounds : List Round) (p p' : Progress State)
        → HeaderInRange target
        → All (λ r. All HeaderInRange r.headers) rounds
        → run_rounds c store rounds p ≡ ok p'
        → IsLinked target p
        → p.is_done ≡ false
        → p'.is_done ≡ true
        → IsLinked target p' × Reached p'.last.height rounds
    unfolding run_rounds
    run_rounds-Linked target [] p p' fits each e linked open_ done =
        let is = ap (λ t. t.is_done) (ok-injective e) in absurd cc
    run_rounds-Linked target (round ∷ rounds) p p' fits (first, each) e linked open_ done =
        elim (Bool-cases (leb p.last.height (round.height + 1))) [
          | inl stop ↦
              let is = ok-injective (rw stop at e) in
              (
                subst (λ t. Linked c store target t.blocks t.last) is linked,
                now round rounds
                    (subst (λ t. t.last.height ≤ round.height + 1) is (leb→le _ _ stop)),
              )
          | inr go ↦
              let backward = reverse round.headers in
              let (q, e₁, e₂) = >>=-eq-ok (accept_headers c store backward p) _ (rw go at e) in
              let (lower, same) = accept_headers-heights backward p q e₁ in
              let linked₁ =
                accept_headers-IsLinked target backward p q fits
                  (All-reverse HeaderInRange round.headers first) e₁ linked in
              let (linked₂, reached) =
                run_rounds-Linked target rounds q p' fits each e₂ linked₁ (same ∙ open_) done in
              (linked₂, later round rounds reached)
        ]

    -- With a store that keeps the laws, and where the target and the headers that are answered fit
    -- the format: when catchUpHeaders has ended without an error, the store has the target under
    -- its height, and below it, down to the last header that was accepted, under each height a
    -- header with the hash that the next one names as that of its parent; and the last is no higher
    -- than the height after that which some round has read for the chain.
    pub catch_up_headers-Linked :
        (rounds : List Round) (target : BlockHeader) (blocks : BlockStore State)
        (p : Progress State)
        → HeaderInRange target
        → All (λ r. All HeaderInRange r.headers) rounds
        → catch_up_headers c store rounds target blocks ≡ ok p
        → p.is_done ≡ true
        → Linked c store target p.blocks p.last × Reached p.last.height rounds
    unfolding catch_up_headers
    catch_up_headers-Linked rounds target blocks p fits each e done =
        let (s, e₁, e₂) = >>=-eq-ok (set_header store target.height target blocks) _ e in
        run_rounds-Linked target rounds _ p fits each e₂
          (top (set_header-found c store laws target blocks s fits e₁).0) refl done
