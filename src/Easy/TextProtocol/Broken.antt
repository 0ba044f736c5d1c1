-- ===== src/Easy/TextProtocol/Broken.antt =====
-- packages/easy-framework/src/memcached-compatible-server/protocol.ts: a CR LF of which the bytes come in
-- two chunks.
use uniqys_kit.Prelude.{
  suc, ◌+◌, ◌==◌, ◌≡◌, refl, ◌&&◌, Option, none, some, [], ◌∷◌, ◌++◌, length, arith, Bool-cases,
  inl, inr,
}
use uniqys_kit.Prelude.Int.{ℤ}
use uniqys_kit.Types.FixedBytes.{Bytes}
use uniqys_kit.Easy.Parameters.{Text}
use uniqys_kit.Easy.TextProtocol.{
  MemcachedSubset, Protocol, after, process_words, line_round, round, follow, process,
  process_chunk,
}
use uniqys_kit.Easy.TextLines.{find_crlf, prefixed, split}
use uniqys_kit.Easy.TextProtocol.Framing.{find_crlf-cons, prefixed-none}

-- A CR LF is found after bytes that do not have one, nor with the CR.
find_crlf-crlf :
    (a b : Bytes) → find_crlf (a ++ (13 ∷ [])) ≡ none → find_crlf (a ++ (13 ∷ 10 ∷ b)) ≡ some (a, b)
find_crlf-crlf [] b e = unfold find_crlf in refl
find_crlf-crlf (x ∷ []) b e = unfold find_crlf in ground arith
find_crlf-crlf (x ∷ y ∷ a) b e = elim (Bool-cases (x == 13 && y == 10)) [
  | inl ends ↦ (let found = rw (find_crlf-cons x y (a ++ (13 ∷ [])), ends) at e in cc found)
  | inr other ↦
      (let nothing =
          prefixed-none x (find_crlf (y ∷ a ++ (13 ∷ [])))
            (rw (find_crlf-cons x y (a ++ (13 ∷ [])), other) at e) in
        rw (find_crlf-cons x y (a ++ (13 ∷ 10 ∷ b)), other, find_crlf-crlf (y ∷ a) b nothing)
          (unfold prefixed in refl))
]

module _ {Server : Type 0} (decode : Bytes → Text) (parse_int : Text → Option ℤ)
    (server : MemcachedSubset Server) where
  waits_on :
      (chunk : Bytes) (p : Protocol Server)
      → p.data_handler ≡ none
      → find_crlf chunk ≡ none
      → process_chunk decode parse_int server chunk p
        ≡ (record p { buffer = p.buffer ++ chunk }, [], none)
  unfolding process_chunk process follow round line_round
  waits_on chunk p idle nothing =
      let rounds : length chunk + length chunk + 2 ≡ suc (length chunk + length chunk + 1) =
        omega arith in
      rw (rounds, idle, nothing) refl

  -- A command line of which the CR ends one chunk and the LF begins the next is not run: both
  -- chunks are kept as bytes without a line end, and nothing is written, provided that no data is
  -- awaited and neither has a CR LF of its own. In one chunk, the line is run.
  pub divided_crlf :
      (a b : Bytes) (p : Protocol Server)
      → p.data_handler ≡ none
      → find_crlf (a ++ (13 ∷ [])) ≡ none
      → find_crlf (10 ∷ b) ≡ none
      → (process_chunk decode parse_int server (a ++ (13 ∷ [])) p
          ≡ (record p { buffer = p.buffer ++ (a ++ (13 ∷ [])) }, [], none))
        × (process_chunk decode parse_int server
              (10 ∷ b)
              (record p { buffer = p.buffer ++ (a ++ (13 ∷ [])) })
            ≡ (record p { buffer = (p.buffer ++ (a ++ (13 ∷ []))) ++ (10 ∷ b) }, [], none))
        × (round decode parse_int server (a ++ (13 ∷ 10 ∷ b)) p none
            ≡ after decode parse_int server b (
                process_words decode parse_int server
                  (split (decode (p.buffer ++ a)))
                  (record p { buffer = [] })))
  unfolding round line_round
  divided_crlf a b p idle first second = (
    waits_on (a ++ (13 ∷ [])) p idle first,
    waits_on (10 ∷ b) (record p { buffer = p.buffer ++ (a ++ (13 ∷ [])) }) idle second,
    rw (find_crlf-crlf a b first) refl,
  )
