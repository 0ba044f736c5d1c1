-- ===== src/Store/Interface.antt =====
-- packages/store/src/index.ts: the interface Store, for keys that are buffers. A store passes its
-- state on; LevelDownStore is a third-party database behind it, and its clear throws.
use uniqys_kit.Prelude.{Option, none, some, ◌≡◌, Result, if◌then◌else◌}
use uniqys_kit.Types.FixedBytes.{Bytes, equals}

pub record Store (State Value : Type 0) : Type 0 where
  pub get : Bytes → State → Option Value
  pub set : Bytes → Value → State → State
  pub delete : Bytes → State → State
  pub clear : Option Bytes → State → Result State

-- What its clients rely on.
pub record StoreLaws (State Value : Type 0) (store : Store State Value) : Type 0 where
  pub get-set :
      (k j : Bytes) (v : Value) (s : State)
      → store.get j (store.set k v s) ≡ (if equals k j then some v else store.get j s)
  pub get-delete :
      (k j : Bytes) (s : State)
      → store.get j (store.delete k s) ≡ (if equals k j then none else store.get j s)
