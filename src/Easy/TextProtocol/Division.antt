-- ===== src/Easy/TextProtocol/Division.antt =====
-- packages/easy-framework/src/memcached-compatible-server/protocol.ts: two chunks are processed like one.
pub mod Parts
use uniqys_kit.Prelude.{
  ℕ, zero, suc, ap, ◌+◌, ◌<◌, ◌≡◌, refl, sym, ◌∙◌, subst, false, Option, none, some, List, [], ◌++◌,
  append_assoc, length, length-append, arith, Bool-cases, inl, inr, ◌⊎◌,
}
use uniqys_kit.Prelude.Int.{ℤ, pos, negsuc}
use uniqys_kit.Types.FixedBytes.{Bytes}
use uniqys_kit.Easy.Parameters.{Text}
use uniqys_kit.Easy.TextProtocol.{
  MemcachedSubset, Protocol, DataHandler, Pending, Output, Ran, Round, waits, goes_on, throws,
  after, line_round, data_round, round, prepend_out, follow, process, process_chunk,
}
use uniqys_kit.Easy.TextLines.{slice_from, is_enough, find_crlf}
use uniqys_kit.Easy.TextProtocol.Framing.{ends_in_cr, ends_in_cr-rest, ends_in_cr-drop}
use uniqys_kit.Easy.TextProtocol.Chunks.{
  IsCount, handlers, handlers-le, measure, after-goes_on, round-decreases,
}
use uniqys_kit.Easy.TextProtocol.Chunks.Extended.{
  process-fuel, extended_round, line-extended, data-extended,
}

-- Either the bytes do not end in CR, or the state waits for data.
abbrev pub OpenEnd : {Server : Type 0} → Bytes → Protocol Server → Type 0
OpenEnd a q = (ends_in_cr a ≡ false) ⊎ ((handler : DataHandler) × (q.data_handler ≡ some handler))

abbrev pub CountOf : Option DataHandler → Type 0
CountOf none = Unit
CountOf (some handler) = IsCount handler.remain_bytes

module _ {Server : Type 0} (decode : Bytes → Text) (parse_int : Text → Option ℤ)
    (server : MemcachedSubset Server) where
  abbrev pub RestCounts :
      (Bytes → Protocol Server → Type 0) → Round decode parse_int server → Type 0
  RestCounts counts (waits q) = Unit
  RestCounts counts (goes_on rest q outputs) = counts rest q
  RestCounts counts (throws q outputs fault) = Unit

  -- No round of this processing has a negative count of bytes.
  unfoldable pub AllCounts : ℕ → Bytes → Protocol Server → Type 0
  AllCounts zero chunk p = Unit
  AllCounts (suc fuel) chunk p =
      CountOf p.data_handler
      × RestCounts (AllCounts fuel) (round decode parse_int server chunk p p.data_handler)

  data_counted :
      (a b : Bytes) (p : Protocol Server) (pending : Pending) (remain : ℤ)
      → IsCount remain
      → data_round decode parse_int server (a ++ b) p pending remain
        ≡ extended_round decode parse_int server b
            (data_round decode parse_int server a p pending remain)
  data_counted a b p pending (pos n) count = data-extended decode parse_int server a b p pending n
  data_counted a b p pending (negsuc n) count = absurd count

  pub round-extended :
      (a b : Bytes) (p : Protocol Server) (o : Option DataHandler)
      → p.data_handler ≡ o
      → CountOf o
      → (o ≡ none → find_crlf a ≡ none → ends_in_cr a ≡ false)
      → round decode parse_int server (a ++ b) p o
        ≡ extended_round decode parse_int server b (round decode parse_int server a p o)
  unfolding round
  round-extended a b p none idle count open_end =
      line-extended decode parse_int server a b p (find_crlf a) idle refl (open_end refl)
  round-extended a b p (some handler) idle count open_end =
      data_counted a b p handler.pending handler.remain_bytes count

  after-ne-waits :
      (rest : Bytes) (ran : Ran Server) (q : Protocol Server)
      → after decode parse_int server rest ran ≡ waits q
      → ⊥
  unfolding after
  after-ne-waits rest (p, outputs, none) q e = cc
  after-ne-waits rest (p, outputs, some fault) q e = cc

  waits-injective :
      (p q : Protocol Server) → ◌≡◌ {A = Round decode parse_int server} (waits p) (waits q) → p ≡ q
  waits-injective p q e = cc

  pub line-waits :
      (a : Bytes) (p q : Protocol Server) (found : Option (Bytes × Bytes))
      → line_round decode parse_int server a p found ≡ waits q
      → (found ≡ none) × (q.data_handler ≡ p.data_handler)
  unfolding line_round
  line-waits a p q none e = (refl, ground arith)
  line-waits a p q (some (line, rest)) e = absurd (after-ne-waits rest _ q e)

  pub waits-handlers :
      (a : Bytes) (p q : Protocol Server) (o : Option DataHandler)
      → p.data_handler ≡ o
      → round decode parse_int server a p o ≡ waits q
      → handlers q.data_handler ≡ handlers o
  unfolding round data_round
  waits-handlers a p q none idle e = ap handlers ((line-waits a p q (find_crlf a) e).1 ∙ idle)
  waits-handlers a p q (some handler) idle e =
      elim (Bool-cases (is_enough handler.remain_bytes a)) [
        | inl enough ↦
            absurd (after-ne-waits (slice_from handler.remain_bytes a) _ q (rw enough at e))
        | inr more ↦ sym (
            ap (λ (r : Protocol Server). handlers r.data_handler)
              (waits-injective _ q (rw more at e)))
      ]

  line-rest_open :
      (a rest : Bytes) (p q : Protocol Server) (found : Option (Bytes × Bytes))
      (outputs : List Output)
      → find_crlf a ≡ found
      → line_round decode parse_int server a p found ≡ goes_on rest q outputs
      → ends_in_cr a ≡ false
      → ends_in_cr rest ≡ false
  unfolding line_round
  line-rest_open a rest p q none outputs at e open_end = cc
  line-rest_open a rest p q (some (line, left)) outputs at e open_end =
      rw ((after-goes_on decode parse_int server left rest _ q outputs e).0)
        (ends_in_cr-rest a line left at open_end)

  slice_from-open : (n : ℤ) (a : Bytes) → ends_in_cr a ≡ false → ends_in_cr (slice_from n a) ≡ false
  unfolding slice_from
  slice_from-open (pos n) a open_end = ends_in_cr-drop n a open_end
  slice_from-open (negsuc n) a open_end = ends_in_cr-drop _ a open_end

  pub rest-open :
      (a rest : Bytes) (p q : Protocol Server) (o : Option DataHandler) (outputs : List Output)
      → round decode parse_int server a p o ≡ goes_on rest q outputs
      → ends_in_cr a ≡ false
      → ends_in_cr rest ≡ false
  unfolding round data_round
  rest-open a rest p q none outputs e open_end =
      line-rest_open a rest p q (find_crlf a) outputs refl e open_end
  rest-open a rest p q (some handler) outputs e open_end =
      elim (Bool-cases (is_enough handler.remain_bytes a)) [
        | inl enough ↦
            rw
              ((after-goes_on decode parse_int server (slice_from handler.remain_bytes a) rest _ q
                outputs (rw enough at e)).0)
              (slice_from-open handler.remain_bytes a open_end)
        | inr more ↦ cc (rw more at e)
      ]

  pub prepend_out-twice :
      (first second : List Output) (ran : Ran Server)
      → prepend_out decode parse_int server first (prepend_out decode parse_int server second ran)
        ≡ prepend_out decode parse_int server (first ++ second) ran
  unfolding prepend_out
  prepend_out-twice first second (p, outputs, fault) =
      ap (λ (os : List Output). (p, os, fault)) (sym (append_assoc first second outputs))

  pub prepend_out-nothing : (ran : Ran Server) → prepend_out decode parse_int server [] ran ≡ ran
  unfolding prepend_out
  prepend_out-nothing (p, outputs, fault) = refl
