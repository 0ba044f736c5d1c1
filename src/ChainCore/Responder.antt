-- ===== src/ChainCore/Responder.antt =====
-- packages/chain-core/src/responder.ts: Responder. An answer is what the handler returns, or its error.
use uniqys_kit.Prelude.{
  ℕ, zero, suc, ◌+◌, ◌-◌, ◌≤◌, ◌≡◌, sym, ap, ◌∙◌, List, [], ◌∷◌, if◌then◌else◌, leb, length, arith,
  Result, ok, ◌>>=◌, >>=-eq-ok, ok-injective,
}
use uniqys_kit.Types.FixedBytes.{Bytes}
use uniqys_kit.Signature.{Crypto}
use uniqys_kit.Store.Interface.{Store}
use uniqys_kit.Blockchain.Blocks.{BlockHeader, BlockBody}
use uniqys_kit.Blockchain.Chain
use uniqys_kit.Blockchain.Chain.{Blockchain, header_of, body_of, consensus_of, validator_set_of}
use uniqys_kit.Protocol.Messages.{ConsentedHeader, Range}

abbrev pub smaller : ℕ → ℕ → ℕ
smaller a b = if leb a b then a else b

-- How many heights there are from `from` to Math.min(height, from + count - 1).
unfoldable pub answer_size : Range → ℕ → ℕ
answer_size range height = smaller (height + 1) (range.from + range.count) - range.from

-- The loop from a height, for so many heights.
unfoldable pub gather {ℓ} : {A : Type ℓ} → (ℕ → Result A) → ℕ → ℕ → Result (List A)
gather of from zero = ok []
gather of from (suc n) = do item ← of from; rest ← gather of (from + 1) n; ok (item ∷ rest)

module _ {State : Type 0} (c : Crypto) (store : Store State Bytes) where
  unfoldable pub get_consented_header : ℕ → Blockchain State → Result ConsentedHeader
  get_consented_header height b = do
    header ← header_of c store height b
    consensus ← consensus_of c store height b
    vs ← validator_set_of c store height b
    ok (record { header = header; consensus = consensus; validator_set = vs })

  unfoldable pub get_headers : Range → Blockchain State → Result (List BlockHeader)
  unfolding answer_size gather
  get_headers range b = do
    height ← Chain.height c store b
    gather (λ i. header_of c store i b) range.from (answer_size range height)

  unfoldable pub get_bodies : Range → Blockchain State → Result (List BlockBody)
  unfolding answer_size gather
  get_bodies range b = do
    height ← Chain.height c store b
    gather (λ i. body_of c store i b) range.from (answer_size range height)

length-gather {ℓ} :
    {A : Type ℓ} (of : ℕ → Result A) (from n : ℕ) (items : List A)
    → gather of from n ≡ ok items
    → length items ≡ n
unfolding gather
length-gather of from zero items e = ap length (sym (ok-injective e))
length-gather of from (suc n) items e =
    let (item, e₁, e₂) = >>=-eq-ok (of from) _ e in
    let (rest, e₃, e₄) = >>=-eq-ok (gather of (from + 1) n) _ e₂ in
    ap length (sym (ok-injective e₄)) ∙ ap suc (length-gather of (from + 1) n rest e₃)

-- An answer has no more headers than were asked for.
length-get_headers :
    {State : Type 0} (c : Crypto) (store : Store State Bytes) (range : Range) (b : Blockchain State)
    (headers : List BlockHeader)
    → get_headers c store range b ≡ ok headers
    → length headers ≤ range.count
unfolding get_headers answer_size
length-get_headers c store range b headers e =
    let (height, e₁, e₂) = >>=-eq-ok (Chain.height c store b) _ e in
    let size =
      length-gather (λ i. header_of c store i b) range.from (answer_size range height) headers e₂ in
    ground (arith, size)
