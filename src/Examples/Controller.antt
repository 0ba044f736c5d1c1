-- ===== src/Examples/Controller.antt =====
-- A signed transaction, and the same data under a kind that there is not.
use uniqys_kit.Prelude.{
  ◌+◌, ◌≡◌, refl, arith, true, none, [], ◌∷◌, ◌++◌, ok, err, if◌then◌else◌, unknown_label, ◌>>=◌,
  replicate,
}
use uniqys_kit.Types.FixedBytes
use uniqys_kit.Types.FixedBytes.{Bytes, equals, equals→eq, equals_refl}
use uniqys_kit.Serialize.Buffer.{
  append, resize, grow, copy, new_writer, contents, ensure, write_through, new_reader, remaining,
  consume,
}
use uniqys_kit.Serialize.Integers.{be_bytes, write_uint_be, be_value, read_uint_be}
use uniqys_kit.Serialize.Codec
use uniqys_kit.Serialize.UInt8
use uniqys_kit.Serialize.UInt32
use uniqys_kit.Serialize.UInt64
use uniqys_kit.Serialize.SizedBuffer
use uniqys_kit.Serialize.Lists
use uniqys_kit.Signature.{Hash, Address}
use uniqys_kit.Signature.Keys
use uniqys_kit.Signature.Keys.{hash_zero, from_data}
use uniqys_kit.Blockchain.Transaction
use uniqys_kit.Blockchain.Transaction.{Transaction, TransactionList}
use uniqys_kit.Blockchain.Blocks.{BlockHeader}
use uniqys_kit.Easy.Account.{Account}
use uniqys_kit.Easy.Http.{
  HttpResponse, header_deserialize, headers_deserialize, request_serialize, request_deserialize,
  headers_serialize,
}
use uniqys_kit.Easy.Transactions
use uniqys_kit.Easy.Transactions.{
  EasyTransaction, SignedTransaction, InRange, construct, sign_roundtrip, signed_deserialize,
  signed_serialize,
}
use uniqys_kit.Easy.Controller.{
  ApplicationState, Application, execute_each, check_transaction, validate_transaction,
}
use uniqys_kit.Easy.Controller.Kinds.{selected_of, validate_transaction-unknown}
use uniqys_kit.Examples.Toy.{toy, sign_of_toy}

-- The only account.
abbrev own : Address
own = replicate 20 64

abbrev fresh : Account
fresh = record { nonce = 0; balance = 0 }

restored : Hash → Account → Account
restored (n ∷ b ∷ rest) s = record { nonce = n; balance = b }
restored (n ∷ []) s = s
restored [] s = s

-- The state is the account.
abbrev state : ApplicationState Account
state = record {
  get_account = λ a s. ok (if equals a own then s else fresh);
  set_account = λ a x s. if equals a own then ok x else err unknown_label;
  root = λ s. s.nonce ∷ s.balance ∷ [];
  rollback = restored;
  change_mode = λ m s. s;
  set_result = λ h r s. ok s;
  get_event_nonce = λ s. ok 0;
  increment_event_nonce = λ s. ok s;
  get_latest_block_timestamp = λ s. ok 0;
  get_latest_event_timestamp = λ s. ok 0;
  new_height = λ time hashes exists root s. ok s;
  get_app_state = λ s. err unknown_label;
}

abbrev pub response : HttpResponse
response = record { status = 200; message = []; headers = []; body = [] }

-- A request adds one to the balance.
abbrev app : Application Account
app = record {
  call = λ tx header h s. (record { nonce = s.nonce; balance = s.balance + 1 }, ok response);
  call_event = λ tx header h s. (s, ok response);
}

abbrev message : EasyTransaction
message = record {
  nonce = 1;
  request = record { method = []; path = b'/' ∷ []; headers = []; body = [] };
}

abbrev signed : SignedTransaction
signed = record { sign = sign_of_toy; transaction = message; signer = own }

signed_by : Transactions.sign toy [] message ≡ ok signed
unfolding Transactions.sign construct Transactions.hash Transactions.serialize request_serialize
    headers_serialize Lists.serialize Lists.write_items SizedBuffer.serialize UInt64.serialize
    UInt32.serialize UInt8.serialize Codec.serialize write_uint_be be_bytes ensure write_through
    resize grow copy append new_writer contents from_data Keys.sign Keys.construct Keys.recovery
    Keys.address Keys.recover Keys.public_key_of FixedBytes.construct Keys.from_public_key
signed_by = refl

IsInRange-message : InRange message
IsInRange-message = record {
  nonce = omega arith;
  request = record {
    method = omega arith;
    path = omega arith;
    few_headers = omega arith;
    headers = tt;
    body = omega arith;
  };
}

sign_roundtrip_example :
    (signed.transaction ≡ message)
    × (ok signed.signer ≡ Keys.key_pair_address toy [])
    × ((Codec.serialize signed_serialize signed >>= Codec.deserialize (signed_deserialize toy))
        ≡ ok signed)
sign_roundtrip_example = sign_roundtrip toy [] message signed IsInRange-message signed_by

abbrev pub sent : Transaction
sent = record {
  kind = Transaction.normal;
  payload =
      sign_of_toy
      ++ (0 ∷ 0 ∷ 0 ∷ 0 ∷ 0 ∷ 0 ∷ 0 ∷ 1 ∷ [])
      ++ (0 ∷ 0 ∷ 0 ∷ 0 ∷ [])
      ++ (0 ∷ 0 ∷ 0 ∷ 1 ∷ b'/' ∷ [])
      ++ (0 ∷ 0 ∷ 0 ∷ 0 ∷ [])
      ++ (0 ∷ 0 ∷ 0 ∷ 0 ∷ []);
}

abbrev pub header : BlockHeader
header = record {
  height = 2;
  timestamp = 20;
  last_block_hash = hash_zero;
  transaction_root = hash_zero;
  last_block_consensus_root = hash_zero;
  next_validator_set_root = hash_zero;
  app_state_hash = hash_zero;
}

abbrev after : Account
after = record { nonce = 1; balance = 1 }

-- The same data, under a kind that there is not.
abbrev odd : Transaction
odd = record { kind = 7; payload = sent.payload }

accepted : validate_transaction toy state app none 1000 odd fresh ≡ true
unfolding validate_transaction check_transaction equals signed_deserialize construct
    Transactions.hash Transactions.serialize Transactions.deserialize request_serialize
    request_deserialize headers_serialize headers_deserialize header_deserialize Lists.serialize
    Lists.write_items Lists.deserialize Lists.read_items SizedBuffer.serialize
    SizedBuffer.deserialize UInt64.serialize UInt64.deserialize UInt32.serialize UInt32.deserialize
    UInt8.serialize Codec.serialize Codec.deserialize write_uint_be be_bytes read_uint_be be_value
    ensure write_through resize grow copy append new_writer contents new_reader remaining consume
    from_data Keys.signature_deserialize Keys.construct Keys.recovery Keys.address Keys.recover
    Keys.public_key_of FixedBytes.construct Keys.from_public_key Transaction.serialize
accepted = refl

IsInRange-odd : Transaction.InRange odd
IsInRange-odd = record { kind = omega arith; payload = omega arith }

validate_transaction-unknown_example :
    (validate_transaction toy state app none 1000 odd fresh
      ≡ validate_transaction toy state app none 1000 sent fresh)
    × (selected_of toy state app none odd fresh ≡ selected_of toy state app none sent fresh)
    × ¬ (execute_each toy state app none (sent ∷ odd ∷ []) header fresh ≡ ok (after, []))
validate_transaction-unknown_example =
    validate_transaction-unknown toy state app none 1000 (sent ∷ []) [] odd header fresh fresh
      (after, []) IsInRange-odd (λ e. omega arith) (λ e. omega arith)
