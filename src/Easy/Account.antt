-- ===== src/Easy/Account.antt =====
-- packages/easy-framework/src/account.ts
use uniqys_kit.Prelude.{
  ℕ, ◌+◌, ◌-◌, ◌^◌, ◌<◌, ◌≤◌, ◌≡◌, ltb, if◌then◌else◌, arith, Result, ok, err, ◌>>=◌,
  insufficient_balance,
}
use uniqys_kit.Serialize.Integers.{Serializer, Deserializer}
use uniqys_kit.Serialize.Codec
use uniqys_kit.Serialize.Codec.{Fits, Part-then, Part-last}
use uniqys_kit.Serialize.Codec.Numbers.{Fits-uint64}
use uniqys_kit.Serialize.UInt64

pub record Account : Type 0 where
  pub nonce : ℕ
  pub balance : ℕ

unfoldable pub serialize : Serializer Account
serialize a w = do w₁ ← UInt64.serialize a.nonce w; UInt64.serialize a.balance w₁

unfoldable pub deserialize : Deserializer Account
deserialize r = do
  (nonce, r₁) ← UInt64.deserialize r
  (balance, r₂) ← UInt64.deserialize r₁
  ok (record { nonce = nonce; balance = balance }, r₂)

unfoldable pub increment_nonce : Account → Account
increment_nonce a = record { nonce = a.nonce + 1; balance = a.balance }

unfoldable pub set_balance : ℕ → Account → Account
set_balance balance a = record { nonce = a.nonce; balance = balance }

unfoldable pub decrease_balance : ℕ → Account → Result Account
decrease_balance value a =
    if ltb a.balance value
    then err insufficient_balance
    else ok (record { nonce = a.nonce; balance = a.balance - value })

unfoldable pub increase_balance : ℕ → Account → Account
increase_balance value a = record { nonce = a.nonce; balance = a.balance + value }

-- An account whose numbers fit in 48 bits is read back as it was written.
pub account_roundtrip :
    (a : Account)
    → a.nonce < 2 ^ 48
    → a.balance < 2 ^ 48
    → (Codec.serialize serialize a >>= Codec.deserialize deserialize) ≡ ok a
unfolding serialize deserialize
account_roundtrip a n b = Codec.deserialize-serialize serialize deserialize a (
    Part-then UInt64.serialize UInt64.deserialize _ (Fits-uint64 a.nonce n) (
      Part-last UInt64.serialize UInt64.deserialize
        (λ balance. record { nonce = a.nonce; balance = balance }) (Fits-uint64 a.balance b)))

-- Taking a value from one account and giving it to another is possible only if the first has the
-- value, and then the sum of the balances, and the nonces, are what they were.
pub transfer :
    (value : ℕ) (from to from' : Account)
    → decrease_balance value from ≡ ok from'
    → (value ≤ from.balance)
      × (from'.balance + (increase_balance value to).balance ≡ from.balance + to.balance)
      × (from'.nonce ≡ from.nonce)
      × ((increase_balance value to).nonce ≡ to.nonce)
unfolding decrease_balance increase_balance
transfer value from to from' h = ground arith
