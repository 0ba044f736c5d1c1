-- ===== src/Protocol/Exchange.antt =====
-- packages/protocol/src/index.ts: Protocol. A fetch is known by a number. What happens outside is a
-- list of effects: the promises of a handler are the results that they settle with.
pub mod Turns
use uniqys_kit.Prelude.{
  ℕ, Bool, true, false, Option, none, some, List, [], ◌∷◌, if◌then◌else◌, Result, ok, err,
}
use uniqys_kit.Blockchain.Blocks.{BlockHeader, BlockBody}
use uniqys_kit.Protocol.Messages.{
  MessageType, event, request, response, Range, ConsentedHeader, Message, type_of, hello,
  new_transaction, new_block, new_block_height, new_consensus_message, get_consented_header,
  consented_header, get_headers, headers, get_bodies, bodies,
}

-- The answers of a ProtocolHandler; what it does with an event is an effect.
pub record ProtocolHandler : Type 0 where
  pub answer_consented_header : ℕ → Result ConsentedHeader
  pub answer_headers : Range → Result (List BlockHeader)
  pub answer_bodies : Range → Result (List BlockBody)

-- The `ctor` of a fetch.
pub data ResponseClass : Type 0 where
  consented_headers : ResponseClass
  header_lists : ResponseClass
  body_lists : ResponseClass

unfoldable pub is_instance : ResponseClass → Message → Bool
is_instance consented_headers (consented_header m) = true
is_instance header_lists (headers hs) = true
is_instance body_lists (bodies bs) = true
is_instance _ _ = false

pub data Effect : Type 0 where
  notified : Message → Effect
  sent : Message → Effect
  resolved : ℕ → Message → Effect
  rejected : ℕ → Effect
  emitted_error : Effect

-- sendHello and the others like it
unfoldable pub send : Message → List Effect
send message = sent message ∷ []

-- The receiver of the fetch that waits for a response.
pub record Receiver : Type 0 where
  pub fetch : ℕ
  pub ctor : ResponseClass

pub record Protocol : Type 0 where
  pub receiver : Option Receiver

unfoldable pub handle_event : Message → List Effect
handle_event (hello m) = notified (hello m) ∷ []
handle_event (new_transaction tx) = notified (new_transaction tx) ∷ []
handle_event (new_block m) = notified (new_block m) ∷ []
handle_event (new_block_height n) = notified (new_block_height n) ∷ []
handle_event (new_consensus_message m) = notified (new_consensus_message m) ∷ []
handle_event _ = emitted_error ∷ []

-- `.then(msg => this.channel.sendMessage(msg), err => this.event.emit('error', err))`
unfoldable pub reply : {A : Type 0} → (A → Message) → Result A → List Effect
reply message (ok answer) = sent (message answer) ∷ []
reply message (err e) = emitted_error ∷ []

unfoldable pub handle_request : ProtocolHandler → Message → List Effect
unfolding reply
handle_request handler (get_consented_header n) =
    reply consented_header (handler.answer_consented_header n)
handle_request handler (get_headers range) = reply headers (handler.answer_headers range)
handle_request handler (get_bodies range) = reply bodies (handler.answer_bodies range)
handle_request handler _ = emitted_error ∷ []

-- The function in the receiver.
unfoldable pub receive : Receiver → Message → List Effect
unfolding is_instance
receive receiver msg =
    if is_instance receiver.ctor msg
    then resolved receiver.fetch msg ∷ []
    else emitted_error ∷ rejected receiver.fetch ∷ []

unfoldable pub handle_response : Message → Option Receiver → Protocol × List Effect
unfolding receive
handle_response msg none = (record { receiver = none }, emitted_error ∷ [])
handle_response msg (some receiver) = (record { receiver = none }, receive receiver msg)

-- The listener of start.
unfoldable pub on_message : ProtocolHandler → Message → Protocol → Protocol × List Effect
unfolding handle_event handle_request handle_response type_of
on_message handler msg s = elim (type_of msg) [
  | event ↦ (s, handle_event msg)
  | request ↦ (s, handle_request handler msg)
  | response ↦ handle_response msg s.receiver
]

-- fetch where the message is sent.
unfoldable pub fetch : ℕ → Message → ResponseClass → Protocol → Protocol × List Effect
unfolding send
fetch number message ctor s =
    (record { receiver = some (record { fetch = number; ctor = ctor }) }, send message)

-- fetch where sendMessage fails: its promise is rejected, and the receiver stays.
unfoldable pub fetch_unsent : ℕ → ResponseClass → Protocol → Protocol × List Effect
fetch_unsent number ctor s =
    (record { receiver = some (record { fetch = number; ctor = ctor }) }, rejected number ∷ [])

unfoldable pub fetch_consented_header : ℕ → ℕ → Protocol → Protocol × List Effect
unfolding fetch
fetch_consented_header number height = fetch number (get_consented_header height) consented_headers

unfoldable pub fetch_headers : ℕ → Range → Protocol → Protocol × List Effect
unfolding fetch
fetch_headers number range = fetch number (get_headers range) header_lists

unfoldable pub fetch_bodies : ℕ → Range → Protocol → Protocol × List Effect
unfolding fetch
fetch_bodies number range = fetch number (get_bodies range) body_lists

-- The three kinds of RequestMessage, each with its fetch and the handler's answer.
pub data Request : Type 0 where
  header_at : ℕ → Request
  headers_in : Range → Request
  bodies_in : Range → Request

unfoldable pub ask : ℕ → Request → Protocol → Protocol × List Effect
unfolding fetch_consented_header fetch_headers fetch_bodies
ask number (header_at height) = fetch_consented_header number height
ask number (headers_in range) = fetch_headers number range
ask number (bodies_in range) = fetch_bodies number range
