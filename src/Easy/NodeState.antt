-- ===== src/Easy/NodeState.antt =====
-- packages/easy-framework/src/state.ts: State, with its parts in namespaces of one store, and the mode
-- of the memcached implementation on it: what the controller uses of the two.
use uniqys_kit.Prelude.{Option, none, some, [], ◌∷◌, Result, ok, ◌>>=◌}
use uniqys_kit.Serialize.Codec
use uniqys_kit.Types.FixedBytes.{Bytes}
use uniqys_kit.Signature.{Hash, Address, Crypto}
use uniqys_kit.Store.Interface.{Store}
use uniqys_kit.Store.Namespace.{namespace}
use uniqys_kit.Trie.Tree
use uniqys_kit.Trie.Tree.{MerklePatriciaTrie}
use uniqys_kit.Easy.Account
use uniqys_kit.Easy.Account.{Account}
use uniqys_kit.Easy.Memcached.{OperationMode}
use uniqys_kit.Easy.Meta
use uniqys_kit.Easy.State
use uniqys_kit.Easy.Transactions
use uniqys_kit.Easy.Controller.{ApplicationState}

-- The store of the trie is the one of all the parts.
pub record NodeState (Base : Type 0) : Type 0 where
  pub top : MerklePatriciaTrie Base
  pub mode : OperationMode

-- 'meta:', 'results:' and 'app:'
abbrev meta_prefix : Bytes
meta_prefix = b'm' ∷ b'e' ∷ b't' ∷ b'a' ∷ b':' ∷ []

abbrev results_prefix : Bytes
results_prefix = b'r' ∷ b'e' ∷ b's' ∷ b'u' ∷ b'l' ∷ b't' ∷ b's' ∷ b':' ∷ []

abbrev pub app_prefix : Bytes
app_prefix = b'a' ∷ b'p' ∷ b'p' ∷ b':' ∷ []

module _ (c : Crypto) {Base : Type 0} (store : Store Base Bytes) where
  abbrev meta : Store Base Bytes
  meta = namespace store meta_prefix

  -- What an operation on the store does to the state.
  abbrev on_store : (Base → Result Base) → NodeState Base → Result (NodeState Base)
  on_store change s = do
    base ← change s.top.store
    ok (record s { top = record s.top { store = base } })

  unfoldable pub account_of : Option Bytes → Result Account
  account_of none = ok (record { nonce = 0; balance = 0 })
  account_of (some bytes) = Codec.deserialize Account.deserialize bytes

  unfoldable pub get_account : Address → NodeState Base → Result Account
  unfolding account_of
  get_account address s = do
    found ← Tree.get c (namespace store app_prefix) address s.top
    account_of found

  unfoldable pub set_account : Address → Account → NodeState Base → Result (NodeState Base)
  set_account address account s = do
    bytes ← Codec.serialize Account.serialize account
    top ← Tree.set c (namespace store app_prefix) address bytes s.top
    ok (record s { top = top })

  -- Of a trie that is ready, as ready has made it.
  unfoldable pub rollback : Hash → NodeState Base → NodeState Base
  rollback root s = record s { top = record s.top { root_hash = root } }

  unfoldable pub node_state : ApplicationState (NodeState Base)
  node_state = record {
    get_account = get_account;
    set_account = set_account;
    root = λ s. s.top.root_hash;
    rollback = rollback;
    change_mode = λ mode s. record s { mode = mode };
    set_result =
        λ h result. on_store (Transactions.set_result (namespace store results_prefix) h result);
    get_event_nonce = λ s. Meta.get_event_nonce meta s.top.store;
    increment_event_nonce = on_store (Meta.increment_event_nonce meta);
    get_latest_block_timestamp = λ s. Meta.get_latest_block_timestamp meta s.top.store;
    get_latest_event_timestamp = λ s. Meta.get_latest_event_timestamp meta s.top.store;
    new_height = λ timestamp hashes exists root s.
        on_store (State.new_height meta s.top.root_hash timestamp hashes exists root) s;
    get_app_state = λ s. State.get_app_state meta c s.top.store;
  }
