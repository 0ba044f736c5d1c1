-- ===== src/Easy/TextProtocol/Division/Parts.antt =====
-- packages/easy-framework/src/memcached-compatible-server/protocol.ts: the first part of what is divided
-- is processed, and then the second.
use uniqys_kit.Prelude.{
  ℕ, zero, suc, ap, ◌+◌, ◌<◌, ◌≡◌, refl, sym, ◌∙◌, subst, false, Option, none, some, List, [], ◌++◌,
  length, length-append, arith, inl, inr,
}
use uniqys_kit.Prelude.Int.{ℤ}
use uniqys_kit.Types.FixedBytes.{Bytes}
use uniqys_kit.Easy.Parameters.{Text}
use uniqys_kit.Easy.TextProtocol.{
  MemcachedSubset, Protocol, Output, Ran, Round, waits, goes_on, throws, line_round, round,
  prepend_out, follow, process, process_chunk,
}
use uniqys_kit.Easy.TextLines.{find_crlf}
use uniqys_kit.Easy.TextProtocol.Framing.{ends_in_cr}
use uniqys_kit.Easy.TextProtocol.Chunks.{handlers-le, measure, round-decreases}
use uniqys_kit.Easy.TextProtocol.Chunks.Extended.{process-fuel, extended_round}
use uniqys_kit.Easy.TextProtocol.Division.{
  OpenEnd, CountOf, RestCounts, AllCounts, round-extended, line-waits, waits-handlers, rest-open,
  prepend_out-twice, prepend_out-nothing,
}

module _ {Server : Type 0} (decode : Bytes → Text) (parse_int : Text → Option ℤ)
    (server : MemcachedSubset Server) where
  -- The parts of a processing that goes on.
  prepended :
      (first outputs : List Output) (ran : Ran Server) (q : Protocol Server)
      → prepend_out decode parse_int server first ran ≡ (q, outputs, none)
      → (second : List Output) × (ran ≡ (q, second, none)) × (outputs ≡ first ++ second)
  unfolding prepend_out
  prepended first outputs (p, second, none) q e = (second, cc, cc)
  prepended first outputs (p, second, some fault) q e = cc

  still_open :
      (a : Bytes) (p q : Protocol Server)
      → round decode parse_int server a p p.data_handler ≡ waits q
      → OpenEnd a q
      → p.data_handler ≡ none
      → find_crlf a ≡ none
      → ends_in_cr a ≡ false
  unfolding round
  still_open a p q e (inl open_end) idle nothing = open_end
  still_open a p q e (inr (handler, waiting)) idle nothing =
      let e' = subst (λ o. round decode parse_int server a p o ≡ waits q) idle e in
      let kept = (line-waits decode parse_int server a p q (find_crlf a) e').1 in cc

  -- By the first round: it waits, and then the second part is processed as such; or it goes on.
  divided_waits :
      (g : ℕ) (a b : Bytes) (p q : Protocol Server)
      → round decode parse_int server a p p.data_handler ≡ waits q
      → CountOf p.data_handler
      → OpenEnd a q
      → measure decode parse_int server (a ++ b) p < suc g
      → process decode parse_int server (suc g) (a ++ b) p
        ≡ process_chunk decode parse_int server b q
  unfolding process_chunk process extended_round
  divided_waits g a b p q e count open_end enough =
      let same =
        round-extended decode parse_int server a b p p.data_handler refl count
          (still_open a p q e open_end) in
      let one : round decode parse_int server (a ++ b) p p.data_handler
          ≡ round decode parse_int server b q q.data_handler =
        same ∙ ap (extended_round decode parse_int server b) e in
      let size = waits-handlers decode parse_int server a p q p.data_handler refl e in
      ap (follow decode parse_int server (process decode parse_int server g)) one
      ∙ process-fuel decode parse_int server (suc g) (length b + length b + 2) b q
          (omega (arith, enough, length-append a b, size))
          (omega (arith, handlers-le q.data_handler))

  -- What is divided, for enough fuel.
  abbrev Splits : ℕ → ℕ → Bytes → Bytes → Protocol Server → Type 0
  Splits f g a b p =
      (q : Protocol Server) (outputs : List Output)
      → process decode parse_int server f a p ≡ (q, outputs, none)
      → AllCounts decode parse_int server f a p
      → OpenEnd a q
      → measure decode parse_int server (a ++ b) p < g
      → process decode parse_int server g (a ++ b) p
        ≡ prepend_out decode parse_int server outputs (process_chunk decode parse_int server b q)

  going_open :
      (a rest : Bytes) (p q : Protocol Server) (outputs : List Output)
      → round decode parse_int server a p p.data_handler ≡ goes_on rest q outputs
      → p.data_handler ≡ none
      → find_crlf a ≡ none
      → ends_in_cr a ≡ false
  unfolding round line_round
  going_open a rest p q outputs e idle nothing =
      let e' = subst (λ o. round decode parse_int server a p o ≡ goes_on rest q outputs) idle e in
      cc (rw nothing at e')

  rest-OpenEnd :
      (a rest : Bytes) (p q' q : Protocol Server) (outputs : List Output)
      → round decode parse_int server a p p.data_handler ≡ goes_on rest q' outputs
      → OpenEnd a q
      → OpenEnd rest q
  rest-OpenEnd a rest p q' q outputs e (inl open_end) =
      inl (rest-open decode parse_int server a rest p q' p.data_handler outputs e open_end)
  rest-OpenEnd a rest p q' q outputs e (inr waiting) = inr waiting

  follow-Splits :
      (f g : ℕ) (a b : Bytes) (p : Protocol Server) (r : Round decode parse_int server)
      → round decode parse_int server a p p.data_handler ≡ r
      → ((rest : Bytes) (q : Protocol Server) → Splits f g rest b q)
      → Splits (suc f) (suc g) a b p
  unfolding process AllCounts follow extended_round
  follow-Splits f g a b p (waits q') e rest_divided q outputs ran counts open_end enough =
      let here = rw e at ran in
      let same : q' ≡ q = ap (λ (x : Ran Server). x.0) here in
      let silent : [] ≡ outputs = ap (λ (x : Ran Server). x.1) here in
      divided_waits g a b p q (e ∙ ap (λ (x : Protocol Server). waits x) same) counts.0 open_end
        enough
      ∙ sym
          (prepend_out-nothing decode parse_int server (process_chunk decode parse_int server b q))
      ∙ ap
          (λ (os : List Output).
            prepend_out decode parse_int server os (process_chunk decode parse_int server b q))
          silent
  follow-Splits f g a b p (goes_on rest q' first) e rest_divided q outputs ran counts open_end
        enough =
      let (second, left, all) =
        prepended first outputs (process decode parse_int server f rest q') q (rw e at ran) in
      let same =
        round-extended decode parse_int server a b p p.data_handler refl counts.0
          (going_open a rest p q' first e) in
      let one : round decode parse_int server (a ++ b) p p.data_handler
          ≡ goes_on (rest ++ b) q' first =
        same ∙ ap (extended_round decode parse_int server b) e in
      let size =
        round-decreases decode parse_int server (a ++ b) p p.data_handler (rest ++ b) q' first
          one in
      let divided_rest =
        rest_divided rest q' q second left
          (subst (RestCounts decode parse_int server (AllCounts decode parse_int server f)) e
            counts.1)
          (rest-OpenEnd a rest p q' q first e open_end) (omega (arith, size, enough)) in
      ap (follow decode parse_int server (process decode parse_int server g)) one
      ∙ ap (prepend_out decode parse_int server first) divided_rest
      ∙ prepend_out-twice decode parse_int server first second
          (process_chunk decode parse_int server b q)
      ∙ ap
          (λ (os : List Output).
            prepend_out decode parse_int server os (process_chunk decode parse_int server b q))
          (sym all)
  follow-Splits f g a b p (throws q' first fault) e rest_divided q outputs ran counts open_end
        enough =
      cc (rw e at ran)

  process-Splits : (f g : ℕ) (a b : Bytes) (p : Protocol Server) → Splits f g a b p
  unfolding process
  process-Splits zero g a b p q outputs ran counts open_end enough = cc
  process-Splits (suc f) zero a b p q outputs ran counts open_end enough = absurd (omega arith)
  process-Splits (suc f) (suc g) a b p q outputs ran counts open_end enough =
      follow-Splits f g a b p (round decode parse_int server a p p.data_handler) refl
        (λ rest q'. process-Splits f g rest b q') q outputs ran counts open_end enough

  -- For any server and any commands: where the first of two chunks is processed without an error,
  -- no count of bytes is negative in it, and it does not end in CR or the protocol then waits for
  -- data, processing both as one chunk leaves the same state, writes the same and ends in the same
  -- way as processing the first and then the second.
  pub process_chunk-append :
      (a b : Bytes) (p q : Protocol Server) (outputs : List Output)
      → process_chunk decode parse_int server a p ≡ (q, outputs, none)
      → AllCounts decode parse_int server (length a + length a + 2) a p
      → OpenEnd a q
      → process_chunk decode parse_int server (a ++ b) p
        ≡ prepend_out decode parse_int server outputs (process_chunk decode parse_int server b q)
  unfolding process_chunk
  process_chunk-append a b p q outputs ran counts open_end =
      process-Splits (length a + length a + 2) (length (a ++ b) + length (a ++ b) + 2) a b p q
        outputs ran counts open_end (omega (arith, handlers-le p.data_handler))
