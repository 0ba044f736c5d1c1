-- ===== src/Easy/TextProtocol/Chunks/Extended.antt =====
-- packages/easy-framework/src/memcached-compatible-server/protocol.ts: what a round does when more bytes
-- follow at once.
use uniqys_kit.Prelude.{
  ℕ, zero, suc, ap, ◌+◌, ◌-◌, ◌<◌, ◌≡◌, refl, sym, ◌∙◌, true, false, Option, none, some, List, [],
  ◌++◌, append_assoc, leb, leb→le, length, drop, take, arith, Bool-cases, inl, inr, length-append,
}
use uniqys_kit.Prelude.Int.{ℤ, pos}
use uniqys_kit.Types.FixedBytes.{Bytes}
use uniqys_kit.Easy.Parameters.{Text}
use uniqys_kit.Easy.TextProtocol.{
  MemcachedSubset, Protocol, Pending, Output, Ran, Round, waits, goes_on, throws, after,
  process_words, line_round, data_round, round, prepend_out, follow, process,
}
use uniqys_kit.Easy.TextLines.{slice_to, slice_from, is_enough, minus, find_crlf, split}
use uniqys_kit.Easy.TextProtocol.Framing.{ends_in_cr, continued, find_crlf-some, find_crlf-none}
use uniqys_kit.Easy.TextProtocol.Chunks.{
  long_enough, drop-longer, take-longer, drop-shorter, take-shorter, measure, round-decreases,
}

module _ {Server : Type 0} (decode : Bytes → Text) (parse_int : Text → Option ℤ)
    (server : MemcachedSubset Server) where
  -- Where the calls on the rest are the same.
  follow-same :
      (f g : Bytes → Protocol Server → Ran Server) (r : Round decode parse_int server)
      → ((rest : Bytes) (q : Protocol Server) (outputs : List Output)
          → r ≡ goes_on rest q outputs
          → f rest q ≡ g rest q)
      → follow decode parse_int server f r ≡ follow decode parse_int server g r
  unfolding follow
  follow-same f g (waits q) same = refl
  follow-same f g (goes_on rest q outputs) same =
      ap (prepend_out decode parse_int server outputs) (same rest q outputs refl)
  follow-same f g (throws q outputs fault) same = refl

  -- More fuel than the measure decode parse_int server makes no difference.
  pub process-fuel :
      (f g : ℕ) (chunk : Bytes) (p : Protocol Server)
      → measure decode parse_int server chunk p < f
      → measure decode parse_int server chunk p < g
      → process decode parse_int server f chunk p ≡ process decode parse_int server g chunk p
  unfolding process
  process-fuel zero g chunk p hf hg = absurd (omega arith)
  process-fuel (suc f) zero chunk p hf hg = absurd (omega arith)
  process-fuel (suc f) (suc g) chunk p hf hg =
      follow-same (process decode parse_int server f) (process decode parse_int server g)
        (round decode parse_int server chunk p p.data_handler)
        (λ rest q outputs e.
          process-fuel f g rest q
            (omega (
              arith,
              round-decreases decode parse_int server chunk p p.data_handler rest q outputs e,
              hf,
            ))
            (omega (
              arith,
              round-decreases decode parse_int server chunk p p.data_handler rest q outputs e,
              hg,
            )))

  -- What a round does when more bytes follow at once.
  unfoldable pub extended_round :
      Bytes → Round decode parse_int server → Round decode parse_int server
  extended_round more (waits q) = round decode parse_int server more q q.data_handler
  extended_round more (goes_on rest q outputs) = goes_on (rest ++ more) q outputs
  extended_round more (throws q outputs fault) = throws q outputs fault

  after-extended :
      (rest more : Bytes) (ran : Ran Server)
      → after decode parse_int server (rest ++ more) ran
        ≡ extended_round more (after decode parse_int server rest ran)
  unfolding after extended_round
  after-extended rest more (q, outputs, none) = refl
  after-extended rest more (q, outputs, some fault) = refl

  continued-same :
      (a b : Bytes) (p : Protocol Server) (found : Option (Bytes × Bytes))
      → line_round decode parse_int server (a ++ b) p (continued a found)
        ≡ line_round decode parse_int server b (record p { buffer = p.buffer ++ a }) found
  unfolding line_round
  continued-same a b p none =
      ap (λ (c : Bytes). waits (record p { buffer = c })) (sym (append_assoc p.buffer a b))
  continued-same a b p (some (line, rest)) =
      ap
        (λ (c : Bytes).
          after decode parse_int server rest
            (process_words decode parse_int server (split (decode c)) (record p { buffer = [] })))
        (sym (append_assoc p.buffer a line))

  pub line-extended :
      (a b : Bytes) (p : Protocol Server) (found : Option (Bytes × Bytes))
      → p.data_handler ≡ none
      → find_crlf a ≡ found
      → (found ≡ none → ends_in_cr a ≡ false)
      → line_round decode parse_int server (a ++ b) p (find_crlf (a ++ b))
        ≡ extended_round b (line_round decode parse_int server a p found)
  unfolding line_round extended_round round
  line-extended a b p none idle at open_end =
      let q : Protocol Server = record p { buffer = p.buffer ++ a } in
      ap (line_round decode parse_int server (a ++ b) p) (find_crlf-none a b at (open_end refl))
      ∙ continued-same a b p (find_crlf b)
      ∙ ap (round decode parse_int server b q) (sym idle)
  line-extended a b p (some (line, rest)) idle at open_end =
      rw (find_crlf-some a b line rest at) (after-extended rest b _)

  -- Both wait for more, or the second part has the rest of the data.
  data-later :
      (a b : Bytes) (p : Protocol Server) (pending : Pending) (n k : ℕ)
      → leb n (length a) ≡ false
      → n ≡ length a + k
      → data_round decode parse_int server (a ++ b) p pending (pos n)
        ≡ extended_round b (data_round decode parse_int server a p pending (pos n))
  unfolding data_round extended_round round is_enough slice_from slice_to minus
  data-later a b p pending n k more size =
      let fits : leb (length a) n ≡ true = ground arith in
      let left : n - length a ≡ k = omega arith in
      let same : leb n (length (a ++ b)) ≡ leb k (length b) = ground (arith, length-append a b) in
      elim (Bool-cases (leb k (length b))) [
        | inl enough ↦
            rw
              (
                same ∙ enough,
                more,
                fits,
                left,
                enough,
                drop-longer n k a b size,
                take-longer n k a b size,
                append_assoc p.buffer a (take k b),
              )
              refl
        | inr short ↦
            (let all : leb (length (a ++ b)) n ≡ true = ground (arith, length-append a b) in
              let rest : leb (length b) k ≡ true = ground arith in
              let both : n - length (a ++ b) ≡ k - length b = omega (arith, length-append a b) in
              rw (same ∙ short, more, fits, left, short, all, rest, both, append_assoc p.buffer a b)
                refl)
      ]

  pub data-extended :
      (a b : Bytes) (p : Protocol Server) (pending : Pending) (n : ℕ)
      → data_round decode parse_int server (a ++ b) p pending (pos n)
        ≡ extended_round b (data_round decode parse_int server a p pending (pos n))
  unfolding data_round extended_round round is_enough slice_from slice_to minus
  data-extended a b p pending n = elim (Bool-cases (leb n (length a))) [
    | inl enough ↦
        rw
          (
            long_enough n a b enough,
            enough,
            take-shorter n a b (leb→le n _ enough),
            drop-shorter n a b (leb→le n _ enough),
          )
          (after-extended (drop n a) b _)
    | inr more ↦ data-later a b p pending n (n - length a) more (ground arith)
  ]
