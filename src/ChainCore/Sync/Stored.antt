-- ===== src/ChainCore/Sync/Stored.antt =====
-- packages/chain-core/src/synchronizer.ts: what the store has after catchUpHeaders has stored a header.
use uniqys_kit.Prelude.{
  ℕ, ◌^◌, ◌≤◌, ◌<◌, ◌≡◌, ◌≢◌, sym, ap, subst, ◌∙◌, List, [], ◌∷◌, ◌++◌, reverse, leb, All, arith,
  Bool-cases, inl, inr, ok, ok-injective,
}
use mathlib.Core.List.{reverse-cons}
use uniqys_kit.Types.FixedBytes.{Bytes}
use uniqys_kit.Signature.{Crypto}
use uniqys_kit.Store.Interface.{Store, StoreLaws}
use uniqys_kit.Blockchain.Blocks.{BlockHeader, HeaderInRange}
use uniqys_kit.Blockchain.BlockStore.{BlockStore, get_header, set_header}
use uniqys_kit.Blockchain.BlockStore.Lookup.{get_header-set_header}
use uniqys_kit.ChainCore.Sync.Headers.{Linked, top, under}

All-append : {A : Type 0} (P : A → Type 0) (xs ys : List A) → All P xs → All P ys → All P (xs ++ ys)
All-append P [] ys each more = more
All-append P (x ∷ xs) ys (first, each) more = (first, All-append P xs ys each more)

pub All-reverse : {A : Type 0} (P : A → Type 0) (xs : List A) → All P xs → All P (reverse xs)
All-reverse P [] each = tt
All-reverse P (x ∷ xs) (first, each) =
    subst (All P) (sym (reverse-cons x xs))
      (All-append P (reverse xs) (x ∷ []) (All-reverse P xs each) (first, tt))

module _ {State : Type 0} (c : Crypto) (store : Store State Bytes)
    (laws : StoreLaws State Bytes store) where
  -- The target is the highest.
  Linked-below :
      (target : BlockHeader) (blocks : BlockStore State) (header : BlockHeader)
      → Linked c store target blocks header
      → header.height ≤ target.height
  Linked-below target blocks header (top found) = omega arith
  Linked-below target blocks header (under _ next found below hashed linked) =
      omega (arith, below, Linked-below target blocks next linked)

  -- A header that is found, as the one that was stored.
  pub set_header-found :
      (header : BlockHeader) (blocks blocks' : BlockStore State)
      → HeaderInRange header
      → set_header store header.height header blocks ≡ ok blocks'
      → (get_header store header.height blocks' ≡ ok header)
        × ((m : ℕ)
            → m < 2 ^ 48
            → header.height ≢ m
            → get_header store m blocks' ≡ get_header store m blocks)
  set_header-found header blocks blocks' fits e =
      let other : (m : ℕ)
          → m < 2 ^ 48
          → header.height ≢ m
          → (get_header store header.height blocks' ≡ ok header)
            × (get_header store m blocks' ≡ get_header store m blocks) =
        λ m small differ.
          let (made, e', found, kept, bodies, height) =
            get_header-set_header store laws header.height m 0 header blocks fits.height small
              (omega arith) differ fits in
          let is : made ≡ blocks' = ok-injective (sym e' ∙ e) in
          (
            ap (get_header store header.height) (sym is) ∙ found,
            ap (get_header store m) (sym is) ∙ kept,
          ) in
      (
        elim (Bool-cases (leb header.height 0)) [
          | inl low ↦ (other 1 (omega arith) (λ e. ground arith)).0
          | inr high ↦ (other 0 (omega arith) (λ e. ground arith)).0
        ],
        λ m small differ. (other m small differ).1,
      )

  -- A header below the others leaves them where they are.
  pub set_header-Linked :
      (target header : BlockHeader) (blocks blocks' : BlockStore State) (next : BlockHeader)
      → HeaderInRange target
      → HeaderInRange header
      → set_header store header.height header blocks ≡ ok blocks'
      → header.height < next.height
      → Linked c store target blocks next
      → Linked c store target blocks' next
  set_header-Linked target header blocks blocks' next fits fits' e lower (top found) =
      let (own, others) = set_header-found header blocks blocks' fits' e in
      top (others target.height fits.height (λ e. omega (arith, e, lower)) ∙ found)
  set_header-Linked target header blocks blocks' next fits fits' e lower
        (under _ above found below hashed linked) =
      let (own, others) = set_header-found header blocks blocks' fits' e in
      let high = Linked-below target blocks above linked in
      under next above
        (others next.height (omega (arith, below, high, fits.height)) (λ e. omega (arith, e, lower))
          ∙ found)
        below hashed
        (set_header-Linked target header blocks blocks' above fits fits' e
          (omega (arith, lower, below)) linked)
