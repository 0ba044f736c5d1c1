-- ===== src/Prelude/Errors.antt =====
-- Code that may throw returns a `Result`. The errors are the exceptions that the source throws,
-- named after their messages or, where the message is empty, after the place.
use mathlib.Core.Path.{◌≡◌, refl}
use mathlib.Core.Logic.{◌⊎◌, inl, inr}
use mathlib.Core.Bool.{Bool, true, false}
use mathlib.Core.Option.{Option, none, some}

pub data Error : Type 0 where
  -- RangeError and TypeError of Buffer, and of the fixed-size byte classes
  range_error : Error
  type_error : Error
  -- `default: throw new Error()` of a switch on a label
  unknown_label : Error
  unknown_message_code : Error
  unexpected_response : Error
  invalid_height : Error
  invalid_genesis_block : Error
  last_block_hash_mismatch : Error
  app_state_hash_mismatch : Error
  invalid_timestamp : Error
  next_validator_set_mismatch : Error
  event_transaction_root_mismatch : Error
  no_precommit_majority : Error
  key_does_not_exist : Error
  trie_not_ready : Error
  -- not of the source: a loop of the model had too little fuel
  out_of_fuel : Error
  children_not_stored : Error
  invalid_branch_count : Error
  fetched_header_is_invalid : Error
  failed_to_chain_from_local : Error
  non_continuous_nonce : Error
  response_status : Error
  nonce_too_low : Error
  transaction_too_large : Error
  out_of_48bit_range : Error
  invalid_signature : Error
  couldnt_recover : Error
  not_included : Error
  block_hash_mismatch : Error
  not_exists_in_validator_set : Error
  insufficient_signature_power : Error
  invalid_transaction_root : Error
  invalid_last_block_consensus_hash : Error
  duplicated_vote : Error
  target_does_not_exist : Error
  insufficient_balance : Error
  read_only_mode : Error
  not_found : Error
  not_ready : Error
  invalid_genesis : Error
  need_reset_app : Error
  app_hash_mismatch : Error
  block_height_mismatch : Error
  not_supported : Error
  unsupported_argument : Error

pub data Result {ℓ} (Value : Type ℓ) : Type ℓ where
  ok : Value → Result Value
  err : Error → Result Value

-- `if (!test) { throw error }`
abbrev pub guard : Bool → Error → Result (Unit {0})
guard false error = err error
guard true error = ok tt

pub guard-eq-ok : (test : Bool) (error : Error) → guard test error ≡ ok tt → test ≡ true
guard-eq-ok true error h = refl
guard-eq-ok false error h = cc

abbrev pub of_option {ℓ} : {Value : Type ℓ} → Error → Option Value → Result Value
of_option error none = err error
of_option error (some value) = ok value

infixl 5 ◌>>◌ ◌>>=◌
abbrev pub ◌>>=◌ {ℓ κ} :
    {First : Type ℓ} {Next : Type κ} → Result First → (First → Result Next) → Result Next
err error >>= next = err error
ok value >>= next = next value

pub >>=-eq-ok {ℓ κ} :
    {First : Type ℓ} {Next : Type κ} (m : Result First) (next : First → Result Next) {b : Next}
    → (m >>= next) ≡ ok b
    → (a : First) × (m ≡ ok a) × (next a ≡ ok b)
>>=-eq-ok (err error) next h = cc
>>=-eq-ok (ok value) next h = (value, refl, h)

-- A call for its effect, followed by another.
abbrev pub ◌>>◌ {ℓ} : {Next : Type ℓ} → Result (Unit {0}) → Result Next → Result Next
effect >> following = effect >>= λ done. following

pub Result-cases {ℓ} :
    {Value : Type ℓ} (r : Result Value) → ((a : Value) × (r ≡ ok a)) ⊎ ((e : Error) × (r ≡ err e))
Result-cases (err e) = inr (e, refl)
Result-cases (ok a) = inl (a, refl)

pub ok-injective {ℓ} : {Value : Type ℓ} {a b : Value} → ok a ≡ ok b → a ≡ b
ok-injective h = cc
