-- ===== src/Easy/TextProtocol/Chunks.antt =====
-- packages/easy-framework/src/memcached-compatible-server/protocol.ts: what is received does not depend on
-- how it is divided into chunks, but for a CR LF that is divided.
pub mod Extended
use uniqys_kit.Prelude.{
  ℕ, zero, suc, ap, ◌+◌, ◌-◌, ◌<◌, ◌≤◌, ◌≡◌, refl, sym, ◌∙◌, Bool, true, false, Option, none, some,
  List, [], ◌∷◌, ◌++◌, append_assoc, leb, leb→le, length, drop, take, arith, Bool-cases, inl, inr,
  Result, ok, err, length-append, length-drop,
}
use uniqys_kit.Prelude.Int.{ℤ, pos, negsuc}
use uniqys_kit.Types.FixedBytes.{Bytes}
use uniqys_kit.Easy.Memcached.{Response}
use uniqys_kit.Easy.Parameters.{Text}
use uniqys_kit.Easy.TextProtocol.{
  MemcachedSubset, Protocol, DataHandler, Pending, to_set, to_add, to_replace, to_append,
  to_prepend, to_cas, Output, Ran, reply, run_data, Round, waits, goes_on, throws, after,
  process_words, line_round, data_round, round, prepend_out, follow, process,
}
use uniqys_kit.Easy.TextLines.{slice_to, slice_from, is_enough, minus, find_crlf, split}
use uniqys_kit.Easy.TextProtocol.Framing.{
  ends_in_cr, continued, length-find_crlf, find_crlf-some, find_crlf-none,
}

-- A count of bytes that is not negative.
abbrev pub IsCount : ℤ → Type 0
IsCount (pos n) = Unit
IsCount (negsuc n) = ⊥

abbrev pub handlers : Option DataHandler → ℕ
handlers none = 0
handlers (some pending) = 1

pub handlers-le : (o : Option DataHandler) → handlers o ≤ 1
handlers-le none = omega arith
handlers-le (some pending) = omega arith

length-slice_from : (n : ℤ) (chunk : Bytes) → length (slice_from n chunk) ≤ length chunk
unfolding slice_from
length-slice_from (pos n) chunk = omega (arith, length-drop n chunk)
length-slice_from (negsuc n) chunk = omega (arith, length-drop (length chunk - suc n) chunk)

pub long_enough : (n : ℕ) (a b : Bytes) → leb n (length a) ≡ true → leb n (length (a ++ b)) ≡ true
long_enough n a b h = ground (arith, length-append a b)

zero_plus : (n k : ℕ) → n ≡ 0 + k → n ≡ k
zero_plus n k h = omega arith

pub drop-longer : (n k : ℕ) (a b : Bytes) → n ≡ length a + k → drop n (a ++ b) ≡ drop k b
drop-longer n k [] b h = rw (zero_plus n k h) refl
drop-longer zero k (x ∷ a) b h = absurd (omega arith)
drop-longer (suc n) k (x ∷ a) b h = drop-longer n k a b (omega arith)

pub take-longer : (n k : ℕ) (a b : Bytes) → n ≡ length a + k → take n (a ++ b) ≡ a ++ take k b
take-longer n k [] b h = rw (zero_plus n k h) refl
take-longer zero k (x ∷ a) b h = absurd (omega arith)
take-longer (suc n) k (x ∷ a) b h = ap (λ t. x ∷ t) (take-longer n k a b (omega arith))

pub drop-shorter : (n : ℕ) (a b : Bytes) → n ≤ length a → drop n (a ++ b) ≡ drop n a ++ b
drop-shorter zero a b h = refl
drop-shorter (suc n) [] b h = absurd (omega arith)
drop-shorter (suc n) (x ∷ a) b h = drop-shorter n a b (omega arith)

pub take-shorter : (n : ℕ) (a b : Bytes) → n ≤ length a → take n (a ++ b) ≡ take n a
take-shorter zero a b h = refl
take-shorter (suc n) [] b h = absurd (omega arith)
take-shorter (suc n) (x ∷ a) b h = ap (λ t. x ∷ t) (take-shorter n a b (omega arith))

module _ {Server : Type 0} (decode : Bytes → Text) (parse_int : Text → Option ℤ)
    (server : MemcachedSubset Server) where
  reply-handler :
      (quiet : Bool) (p : Protocol Server) (x : Server × Result Response)
      → (reply decode parse_int server quiet p x).0.data_handler ≡ p.data_handler
  unfolding reply
  reply-handler quiet p (s, ok r) = refl
  reply-handler quiet p (s, err e) = refl

  run_data-handler :
      (pending : Pending) (bytes : Bytes) (p : Protocol Server)
      → (run_data decode parse_int server pending bytes p).0.data_handler ≡ p.data_handler
  unfolding run_data
  run_data-handler (to_set r) bytes p = reply-handler r.no_reply p _
  run_data-handler (to_add r) bytes p = reply-handler r.no_reply p _
  run_data-handler (to_replace r) bytes p = reply-handler r.no_reply p _
  run_data-handler (to_append r) bytes p = reply-handler r.no_reply p _
  run_data-handler (to_prepend r) bytes p = reply-handler r.no_reply p _
  run_data-handler (to_cas r unique) bytes p = reply-handler r.no_reply p _

  pub after-goes_on :
      (rest rest' : Bytes) (ran : Ran Server) (q : Protocol Server) (outputs : List Output)
      → after decode parse_int server rest ran ≡ goes_on rest' q outputs
      → (rest' ≡ rest) × (q ≡ ran.0)
  unfolding after
  after-goes_on rest rest' (p, outs, none) q outputs e = (cc, cc)
  after-goes_on rest rest' (p, outs, some fault) q outputs e = cc

  abbrev pub measure : Bytes → Protocol Server → ℕ
  measure chunk p = length chunk + length chunk + handlers p.data_handler

  line-decreases :
      (chunk : Bytes) (p : Protocol Server) (found : Option (Bytes × Bytes)) (rest : Bytes)
      (q : Protocol Server) (outputs : List Output)
      → find_crlf chunk ≡ found
      → line_round decode parse_int server chunk p found ≡ goes_on rest q outputs
      → length rest + 2 ≤ length chunk
  unfolding line_round
  line-decreases chunk p none rest q outputs at e = cc
  line-decreases chunk p (some (line, left)) rest q outputs at e =
      let (same, left_of) = after-goes_on left rest _ q outputs e in
      omega (arith, ap length same, length-find_crlf chunk line left at)

  data-decreases :
      (chunk : Bytes) (p : Protocol Server) (pending : Pending) (remain : ℤ) (rest : Bytes)
      (q : Protocol Server) (outputs : List Output)
      → data_round decode parse_int server chunk p pending remain ≡ goes_on rest q outputs
      → (length rest ≤ length chunk) × (handlers q.data_handler ≡ 0)
  unfolding data_round
  data-decreases chunk p pending remain rest q outputs e =
      elim (Bool-cases (is_enough remain chunk)) [
        | inl enough ↦
            (let (same, left) =
                after-goes_on (slice_from remain chunk) rest
                  (run_data decode parse_int server pending (p.buffer ++ slice_to remain chunk)
                    (record p { buffer = []; data_handler = none }))
                  q outputs (rw enough at e) in
              let idle : q.data_handler ≡ none =
                ap (λ (r : Protocol Server). r.data_handler) left ∙ run_data-handler pending _ _ in
              (omega (arith, ap length same, length-slice_from remain chunk), ap handlers idle))
        | inr more ↦ cc (rw more at e)
      ]

  pub round-decreases :
      (chunk : Bytes) (p : Protocol Server) (o : Option DataHandler) (rest : Bytes)
      (q : Protocol Server) (outputs : List Output)
      → round decode parse_int server chunk p o ≡ goes_on rest q outputs
      → measure rest q < length chunk + length chunk + handlers o
  unfolding round
  round-decreases chunk p none rest q outputs e = omega (
    arith,
    line-decreases chunk p (find_crlf chunk) rest q outputs refl e,
    handlers-le q.data_handler,
  )
  round-decreases chunk p (some h) rest q outputs e =
      omega (arith, data-decreases chunk p h.pending h.remain_bytes rest q outputs e)
