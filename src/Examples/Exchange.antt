-- ===== src/Examples/Exchange.antt =====
-- A node asks another for two headers; the other has none.
use uniqys_kit.Prelude.{◌≡◌, refl, none, [], ◌∷◌, ◌++◌, ok, err, not_found}
use uniqys_kit.Protocol.Messages.{Range, headers}
use uniqys_kit.Protocol.Exchange.{
  ProtocolHandler, Protocol, resolved, headers_in, bodies_in, ask, on_message,
}
use uniqys_kit.Protocol.Exchange.Turns.{
  exchange, settled, open_fetch, start, asks, hears, exchange-outcome, Run-settled,
}

abbrev range : Range
range = record { from = 3; count = 2 }

abbrev empty_node : ProtocolHandler
empty_node = record {
  answer_consented_header = λ n. err not_found;
  answer_headers = λ r. ok [];
  answer_bodies = λ r. err not_found;
}

abbrev idle : Protocol
idle = record { receiver = none }

exchange-outcome_example :
    exchange empty_node empty_node 5 (headers_in range) idle idle
    ≡ (idle, resolved 5 (headers []) ∷ [])
exchange-outcome_example = exchange-outcome empty_node empty_node 5 (headers_in range) idle idle

-- The first fetch is settled, the second one waits.
abbrev asked : Protocol
asked = (ask 5 (headers_in range) idle).0

abbrev answered : Protocol
answered = (on_message empty_node (headers []) asked).0

Run-settled_example :
    5 ∷ 6 ∷ []
    ≡ settled (on_message empty_node (headers []) asked).1
      ++ open_fetch (ask 6 (bodies_in range) answered).0.receiver
unfolding on_message ask
Run-settled_example = Run-settled (
    asks 6 (bodies_in range) refl
      (hears empty_node (headers []) (asks 5 (headers_in range) refl start)))
