-- ===== src/Examples/Texts.antt =====
-- A client stores two bytes, which come in two chunks.
use uniqys_kit.Prelude.{
  ◌+◌, ◌-◌, ◌≡◌, refl, false, Option, none, some, [], ◌∷◌, ◌++◌, ok, inr, length,
}
use uniqys_kit.Prelude.Int.{ℤ, pos}
use uniqys_kit.Types.FixedBytes.{Bytes, equals}
use uniqys_kit.Easy.Memcached.{stored, deleted, done, not_found}
use uniqys_kit.Easy.Parameters
use uniqys_kit.Easy.Parameters.{Text, codes, Storage}
use uniqys_kit.Easy.TextProtocol.{
  MemcachedSubset, Protocol, to_set, fetch, set_data_handler, process_command, process_words, after,
  line_round, data_round, round, follow, prepend_out, process, process_chunk,
}
use uniqys_kit.Easy.TextLines.{
  find_crlf, prefixed, is_lf, split, is_enough, slice_to, slice_from, minus,
}
use uniqys_kit.Easy.TextProtocol.Division.{AllCounts}
use uniqys_kit.Easy.TextProtocol.Division.Parts.{process_chunk-append}
use uniqys_kit.Easy.TextProtocol.Broken.{divided_crlf}

parse_digit : Text → Option ℤ
parse_digit [] = none
parse_digit (d ∷ []) = some (pos (d - 48))
parse_digit (d ∷ e ∷ ds) = none

-- It keeps the last value.
abbrev keeper : MemcachedSubset Bytes
keeper = record {
  set = λ key flags bytes s. (bytes, ok stored);
  add = λ key flags bytes s. (bytes, ok stored);
  replace = λ key flags bytes s. (bytes, ok stored);
  append = λ key bytes s. (s ++ bytes, ok stored);
  prepend = λ key bytes s. (bytes ++ s, ok stored);
  cas = λ key flags unique bytes s. (bytes, ok stored);
  get = λ keys s. ([], ok tt);
  gets = λ keys s. ([], ok tt);
  delete = λ key s. ([], ok deleted);
  incr = λ key amount s. (s, ok not_found);
  decr = λ key amount s. (s, ok not_found);
  stats = λ names s. ([], ok tt);
  flush = λ s. ([], ok done);
  version = λ s. ok (codes "1");
  verbosity = λ level s. (s, ok done);
  quit = λ s. (s, ok tt);
}

abbrev fresh : Protocol Bytes
fresh = record { buffer = []; data_handler = none; server = [] }

abbrev first_chunk : Bytes
first_chunk = codes "set k 0 0 2" ++ (13 ∷ 10 ∷ b'x' ∷ [])

abbrev second_chunk : Bytes
second_chunk = b'y' ∷ 13 ∷ 10 ∷ []

abbrev request : Storage
request = record { key = codes "k"; flags = 0; bytes = pos 2; no_reply = false }

abbrev half_way : Protocol Bytes
half_way = record {
  buffer = b'x' ∷ [];
  data_handler = some (record { remain_bytes = pos 1; pending = to_set request });
  server = [];
}

first_processed :
    process_chunk (λ (b : Bytes). b) parse_digit keeper first_chunk fresh ≡ (half_way, [], none)
unfolding process_chunk process follow prepend_out round line_round data_round find_crlf prefixed
    is_lf after process_words split process_command fetch set_data_handler is_enough slice_to
    slice_from minus Parameters.storage Parameters.at_most Parameters.key Parameters.def
    Parameters.flags Parameters.flags_in_range Parameters.number Parameters.number_of
    Parameters.no_reply parse_digit equals
first_processed = refl

counted :
    AllCounts
      (λ (b : Bytes). b)
      parse_digit
      keeper
      (length first_chunk + length first_chunk + 2)
      first_chunk
      fresh
unfolding AllCounts round line_round data_round find_crlf prefixed is_lf after process_words split
    process_command fetch set_data_handler is_enough slice_to slice_from minus Parameters.storage
    Parameters.at_most Parameters.key Parameters.def Parameters.flags Parameters.flags_in_range
    Parameters.number Parameters.number_of Parameters.no_reply parse_digit equals
counted = (tt, (tt, tt))

process_chunk-append_example :
    process_chunk (λ (b : Bytes). b) parse_digit keeper (first_chunk ++ second_chunk) fresh
    ≡ prepend_out
        (λ (b : Bytes). b)
        parse_digit
        keeper
        []
        (process_chunk (λ (b : Bytes). b) parse_digit keeper second_chunk half_way)
process_chunk-append_example =
    process_chunk-append (λ (b : Bytes). b) parse_digit keeper first_chunk second_chunk fresh
      half_way [] first_processed counted
      (inr (record { remain_bytes = pos 1; pending = to_set request }, refl))

no_line : find_crlf (codes "version" ++ (13 ∷ [])) ≡ none
unfolding find_crlf prefixed is_lf
no_line = refl

no_second_line : find_crlf (10 ∷ []) ≡ none
unfolding find_crlf prefixed is_lf
no_second_line = refl

divided_crlf_example :
    (process_chunk (λ (b : Bytes). b) parse_digit keeper (codes "version" ++ (13 ∷ [])) fresh
      ≡ (record fresh { buffer = [] ++ (codes "version" ++ (13 ∷ [])) }, [], none))
    × (process_chunk
          (λ (b : Bytes). b)
          parse_digit
          keeper
          (10 ∷ [])
          (record fresh { buffer = [] ++ (codes "version" ++ (13 ∷ [])) })
        ≡ (record fresh { buffer = ([] ++ (codes "version" ++ (13 ∷ []))) ++ (10 ∷ []) }, [], none))
    × (round (λ (b : Bytes). b) parse_digit keeper (codes "version" ++ (13 ∷ 10 ∷ [])) fresh none
        ≡ after
            (λ (b : Bytes). b)
            parse_digit
            keeper
            []
            (process_words
              (λ (b : Bytes). b)
              parse_digit
              keeper
              (split ([] ++ codes "version"))
              (record fresh { buffer = [] })))
divided_crlf_example =
    divided_crlf (λ (b : Bytes). b) parse_digit keeper (codes "version") [] fresh refl no_line
      no_second_line
