-- ===== src/Examples/Toy.antt =====
-- A hash and a signature scheme that meet what the code relies on, and data for the examples.
use uniqys_kit.Prelude.{ℕ, refl, some, [], ◌∷◌, ◌++◌, arith, length, replicate, length-replicate}
use uniqys_kit.Types.FixedBytes.{Bytes}
use uniqys_kit.Signature.{Crypto, Hash, Signature}
use uniqys_kit.Blockchain.Votes.{Vote}
use uniqys_kit.Blockchain.Messages.{VoteMessage}

abbrev pub toy_hash : Bytes → Hash
toy_hash text = replicate 32 (length text)

abbrev pub toy : Crypto
toy = record {
  keccak256 = toy_hash;
  length-keccak256 = λ text. length-replicate {A = ℕ} 32 (length text);
  sign = λ digest key. (replicate 64 1, 0);
  recover = λ digest sign flag. some (replicate 65 4);
  public_key_create = λ key. replicate 65 4;
  length-public_key = λ key. refl;
  length-sign = λ digest key. refl;
  recovery-lt = λ digest key. omega arith;
  recover-sign = λ digest key. refl;
}

abbrev pub sign_of_toy : Signature
sign_of_toy = replicate 64 1 ++ 27 ∷ []

abbrev pub hash_of : ℕ → Hash
hash_of n = replicate 32 n

abbrev pub vote_for_7 : Vote
vote_for_7 = record { height = 3; round = 1; block_hash = hash_of 7 }

abbrev pub message_for_7 : VoteMessage
message_for_7 = record { vote = vote_for_7; sign = sign_of_toy }
