-- ===== src/Easy/Transactions.antt =====
-- packages/easy-types/src/transaction.ts, and TransactionResult with its store of
-- packages/easy-framework/src/state.ts. A hash is computed where the source has it in a field.
use uniqys_kit.Prelude.{
  ℕ, ◌^◌, ◌<◌, ◌≡◌, refl, sym, ◌∙◌, ap, subst, fun_ext, Option, none, some, Result, ok, ◌>>=◌,
  >>=-eq-ok, ok-injective,
}
use uniqys_kit.Serialize.Integers.{Serializer, Deserializer}
use uniqys_kit.Serialize.Codec
use uniqys_kit.Serialize.Codec.{
  Fits, Part-then, Part-last, Part-end, deserialize-serialize, serialize-bytes,
}
use uniqys_kit.Serialize.Codec.Numbers.{Fits-uint64}
use uniqys_kit.Serialize.UInt64
use uniqys_kit.Types.FixedBytes
use uniqys_kit.Types.FixedBytes.{Bytes, equals_refl}
use uniqys_kit.Signature.{Hash, Address, Signature, Crypto}
use uniqys_kit.Signature.Keys
use uniqys_kit.Signature.Keys.{from_data, signature_deserialize, key_pair_address}
use uniqys_kit.Signature.Recovery.{IsSignature, Fits-signature, address-sign}
use uniqys_kit.Store.Interface.{Store, StoreLaws}
use uniqys_kit.Easy.Http.{
  HttpRequest, HttpResponse, request_serialize, request_deserialize, response_serialize,
  response_deserialize, RequestInRange, Fits-request, ResponseInRange, Fits-response,
}

pub record EasyTransaction : Type 0 where
  pub nonce : ℕ
  pub request : HttpRequest

unfoldable pub serialize : Serializer EasyTransaction
serialize t w = do w₁ ← UInt64.serialize t.nonce w; request_serialize t.request w₁

unfoldable pub deserialize : Deserializer EasyTransaction
deserialize r = do
  (nonce, r₁) ← UInt64.deserialize r
  (action, r₂) ← request_deserialize r₁
  ok (record { nonce = nonce; request = action }, r₂)

pub record InRange (t : EasyTransaction) : Type 0 where
  pub nonce : t.nonce < 2 ^ 48
  pub request : RequestInRange t.request

Fits-transaction : (t : EasyTransaction) → InRange t → Fits serialize deserialize t
unfolding serialize deserialize
Fits-transaction t fits =
    Part-then UInt64.serialize UInt64.deserialize _ (Fits-uint64 t.nonce fits.nonce) (
      Part-last request_serialize request_deserialize
        (λ request. record { nonce = t.nonce; request = request })
        (Fits-request t.request fits.request))

pub record SignedTransaction : Type 0 where
  pub sign : Signature
  pub transaction : EasyTransaction
  pub signer : Address

unfoldable pub signed_serialize : Serializer SignedTransaction
signed_serialize t w = do w₁ ← FixedBytes.serialize t.sign w; serialize t.transaction w₁

module _ (c : Crypto) where
  unfoldable pub hash : EasyTransaction → Result Hash
  hash t = do bytes ← Codec.serialize serialize t; ok (from_data c bytes)

  -- The constructor recovers the signer.
  unfoldable pub construct : Signature → EasyTransaction → Result SignedTransaction
  construct sign t = do
    h ← hash t
    signer ← Keys.address c h sign
    ok (record { sign = sign; transaction = t; signer = signer })

  unfoldable pub sign : Bytes → EasyTransaction → Result SignedTransaction
  sign private_key t = do h ← hash t; s ← Keys.sign c h private_key; construct s t

  unfoldable pub signed_deserialize : Deserializer SignedTransaction
  signed_deserialize r = do
    (s, r₁) ← signature_deserialize r
    (t, r₂) ← deserialize r₁
    signed ← construct s t
    ok (signed, r₂)

  Fits-signed :
      (t : SignedTransaction)
      → IsSignature t.sign
      → InRange t.transaction
      → construct t.sign t.transaction ≡ ok t
      → Fits signed_serialize signed_deserialize t
  unfolding signed_serialize signed_deserialize
  Fits-signed t is_signature fits made =
      Part-then FixedBytes.serialize signature_deserialize _ (Fits-signature t.sign is_signature) (
        Part-end serialize deserialize _ (Fits-transaction t.transaction fits)
          (fun_ext (λ r. ap (λ m. m >>= λ signed. ok (signed, r)) made)))

  construct-parts :
      (s : Signature) (t : EasyTransaction) (h : Hash) (signed : SignedTransaction)
      → hash t ≡ ok h
      → construct s t ≡ ok signed
      → (signed.sign ≡ s) × (signed.transaction ≡ t) × (Keys.address c h s ≡ ok signed.signer)
  unfolding construct
  construct-parts s t h signed hashed e =
      let (signer, by, made) = >>=-eq-ok (Keys.address c h s) _ (rw hashed at e) in
      let same = ok-injective made in
      (
        ap (λ (x : SignedTransaction). x.sign) (sym same),
        ap (λ (x : SignedTransaction). x.transaction) (sym same),
        by ∙ ap (λ (x : SignedTransaction). ok x.signer) same,
      )

  -- A transaction whose numbers and sizes fit the wire format, signed with a key, names as its
  -- signer the address of that key, and is read back as it was written, the signer recovered from
  -- the signature.
  pub sign_roundtrip :
      (private_key : Bytes) (t : EasyTransaction) (signed : SignedTransaction)
      → InRange t
      → sign private_key t ≡ ok signed
      → (signed.transaction ≡ t)
        × (ok signed.signer ≡ key_pair_address c private_key)
        × ((Codec.serialize signed_serialize signed >>= Codec.deserialize signed_deserialize)
            ≡ ok signed)
  unfolding sign
  sign_roundtrip private_key t signed fits e =
      let (h, hashed, e₁) = >>=-eq-ok (hash t) _ e in
      let (s, signed_by, made) = >>=-eq-ok (Keys.sign c h private_key) _ e₁ in
      let (s', made_by, valid, recovered) = address-sign c h private_key in
      let same : s' ≡ s = ok-injective (sym made_by ∙ signed_by) in
      let (of_sign, of_transaction, of_signer) = construct-parts s t h signed hashed made in
      let whole : construct signed.sign signed.transaction ≡ ok signed = cc in
      let is_signature : IsSignature signed.sign = subst IsSignature (same ∙ sym of_sign) valid in
      let in_range : InRange signed.transaction = subst InRange (sym of_transaction) fits in
      (
        of_transaction,
        sym of_signer ∙ ap (Keys.address c h) (sym same) ∙ recovered,
        deserialize-serialize signed_serialize signed_deserialize signed
            (Fits-signed signed is_signature in_range whole),
      )

-- TransactionResult: the height of the block, and the application's response.
pub record TransactionResult : Type 0 where
  pub height : ℕ
  pub response : HttpResponse

unfoldable pub result_serialize : Serializer TransactionResult
result_serialize t w = do w₁ ← UInt64.serialize t.height w; response_serialize t.response w₁

unfoldable pub result_deserialize : Deserializer TransactionResult
result_deserialize r = do
  (height, r₁) ← UInt64.deserialize r
  (response, r₂) ← response_deserialize r₁
  ok (record { height = height; response = response }, r₂)

Fits-result :
    (t : TransactionResult)
    → t.height < 2 ^ 48
    → ResponseInRange t.response
    → Fits result_serialize result_deserialize t
unfolding result_serialize result_deserialize
Fits-result t low fits =
    Part-then UInt64.serialize UInt64.deserialize _ (Fits-uint64 t.height low) (
      Part-last response_serialize response_deserialize
        (λ response. record { height = t.height; response = response })
        (Fits-response t.response fits))

module _ {State : Type 0} (store : Store State Bytes) where
  -- TransactionResultStore
  unfoldable pub set_result : Hash → TransactionResult → State → Result State
  set_result tx result s = do
    bytes ← Codec.serialize result_serialize result
    ok (store.set tx bytes s)

  abbrev pub result_of : Option Bytes → Result (Option TransactionResult)
  result_of none = ok none
  result_of (some bytes) = do result ← Codec.deserialize result_deserialize bytes; ok (some result)

  unfoldable pub get_result : Hash → State → Result (Option TransactionResult)
  get_result tx s = result_of (store.get tx s)

  -- A result that fits the format is found under its transaction.
  get_result-set_result :
      StoreLaws State Bytes store
      → (tx : Hash) (t : TransactionResult) (s : State) → t.height < 2 ^ 48
      → ResponseInRange t.response
      → (s' : State) × (set_result tx t s ≡ ok s') × (get_result tx s' ≡ ok (some t))
  unfolding set_result get_result
  get_result-set_result laws tx t s low fits =
      let fitting = Fits-result t low fits in
      let written = serialize-bytes result_serialize result_deserialize t fitting in
      let read =
        rw written at (deserialize-serialize result_serialize result_deserialize t fitting) in
      (
        store.set tx fitting.bytes s,
        rw written refl,
        rw (laws.get-set tx tx fitting.bytes s, equals_refl tx, read) refl,
      )
