-- ===== src/Protocol/Exchange/Turns.antt =====
-- packages/protocol/src/index.ts: a request and its response, between two nodes.
use uniqys_kit.Prelude.{
  ℕ, ◌≡◌, refl, sym, ap, ◌∙◌, Bool-cases, Result-cases, Option, none, some, List, [], ◌∷◌, ◌++◌,
  append_assoc, append-nil, Result, ok, err, ◌>>=◌, inl, inr,
}
use uniqys_kit.Protocol.Messages.{
  Message, type_of, hello, new_transaction, new_block, new_block_height, new_consensus_message,
  get_consented_header, consented_header, get_headers, headers, get_bodies, bodies,
}
use uniqys_kit.Protocol.Exchange.{
  ProtocolHandler, is_instance, Effect, notified, sent, resolved, rejected, emitted_error, send,
  Receiver, Protocol, handle_event, reply, handle_request, receive, handle_response, on_message,
  fetch, fetch_consented_header, fetch_headers, fetch_bodies, Request, header_at, headers_in,
  bodies_in, ask,
}

-- What is written to the channel.
unfoldable pub sent_of : List Effect → List Message
sent_of [] = []
sent_of (sent m ∷ effects) = m ∷ sent_of effects
sent_of (notified m ∷ effects) = sent_of effects
sent_of (resolved n m ∷ effects) = sent_of effects
sent_of (rejected n ∷ effects) = sent_of effects
sent_of (emitted_error ∷ effects) = sent_of effects

-- A node is given the messages, in order.
unfoldable pub deliver : ProtocolHandler → List Message → Protocol → Protocol × List Effect
deliver handler [] s = (s, [])
deliver handler (m ∷ ms) s =
    let (s₁, first) = on_message handler m s in
    let (s₂, more) = deliver handler ms s₁ in (s₂, first ++ more)

-- A node asks, the other is given what it has sent, and the first one what comes back.
unfoldable pub exchange :
    ProtocolHandler → ProtocolHandler → ℕ → Request → Protocol → Protocol → Protocol × List Effect
unfolding ask sent_of deliver
exchange own other number q s p =
    let (s₁, asked) = ask number q s in
    let (p₁, answered) = deliver other (sent_of asked) p in deliver own (sent_of answered) s₁

-- What the handler of the other node answers.
abbrev pub answer_of : ProtocolHandler → Request → Result Message
answer_of handler (header_at height) =
    handler.answer_consented_header height >>= λ a. ok (consented_header a)
answer_of handler (headers_in range) = handler.answer_headers range >>= λ a. ok (headers a)
answer_of handler (bodies_in range) = handler.answer_bodies range >>= λ a. ok (bodies a)

-- With an answer the fetch is resolved; without one it stays open, and nothing happens.
abbrev pub outcome : ℕ → Request → Protocol → Result Message → Protocol × List Effect
outcome number q s (ok m) = (record { receiver = none }, resolved number m ∷ [])
outcome number q s (err e) = ((ask number q s).0, [])

-- A node asks another for a header, headers or bodies, and each is given, in order, what the other
-- has sent: if the other's handler answers, the fetch is resolved with that answer, and no fetch
-- waits any more; if it fails, no message comes back, and the fetch still waits.
pub exchange-outcome :
    (own other : ProtocolHandler) (number : ℕ) (q : Request) (s p : Protocol)
    → exchange own other number q s p ≡ outcome number q s (answer_of other q)
unfolding exchange deliver sent_of on_message type_of handle_request handle_response receive
    is_instance reply ask fetch_consented_header fetch_headers fetch_bodies fetch send
exchange-outcome own other number (header_at height) s p =
    elim (Result-cases (other.answer_consented_header height)) [
      | inl (a, e) ↦ rw e refl
      | inr (error, e) ↦ rw e refl
    ]
exchange-outcome own other number (headers_in range) s p =
    elim (Result-cases (other.answer_headers range)) [
      | inl (a, e) ↦ rw e refl
      | inr (error, e) ↦ rw e refl
    ]
exchange-outcome own other number (bodies_in range) s p =
    elim (Result-cases (other.answer_bodies range)) [
      | inl (a, e) ↦ rw e refl
      | inr (error, e) ↦ rw e refl
    ]

-- The fetches that effects settle, and the one that is open.
abbrev pub settled : List Effect → List ℕ
settled [] = []
settled (resolved n m ∷ effects) = n ∷ settled effects
settled (rejected n ∷ effects) = n ∷ settled effects
settled (sent m ∷ effects) = settled effects
settled (notified m ∷ effects) = settled effects
settled (emitted_error ∷ effects) = settled effects

abbrev pub open_fetch : Option Receiver → List ℕ
open_fetch none = []
open_fetch (some receiver) = receiver.fetch ∷ []

-- What may happen to a protocol, with the fetches that were made and those that were settled: a fetch
-- is made while none is open, as the mutex of a RemoteNode sees to, or a message comes.
pub data Run : List ℕ → List ℕ → Protocol → Type 0 where
  start : Run [] [] (record { receiver = none })
  asks :
      {made done : List ℕ} {s : Protocol} (number : ℕ) (q : Request)
      → s.receiver ≡ none
      → Run made done s
      → Run (made ++ number ∷ []) done (ask number q s).0
  hears :
      {made done : List ℕ} {s : Protocol} (handler : ProtocolHandler) (m : Message)
      → Run made done s
      → Run made (done ++ settled (on_message handler m s).1) (on_message handler m s).0

settled-reply : {A : Type 0} (message : A → Message) (r : Result A) → settled (reply message r) ≡ []
unfolding reply
settled-reply message (ok a) = refl
settled-reply message (err e) = refl

settled-response :
    (m : Message) (o : Option Receiver)
    → settled (handle_response m o).1 ++ open_fetch (handle_response m o).0.receiver ≡ open_fetch o
unfolding handle_response receive
settled-response m none = refl
settled-response m (some receiver) = elim (Bool-cases (is_instance receiver.ctor m)) [
  | inl expected ↦ rw expected refl
  | inr other ↦ rw other refl
]

-- One message settles the open fetch or leaves it.
settled-on_message :
    (handler : ProtocolHandler) (m : Message) (s : Protocol)
    → settled (on_message handler m s).1 ++ open_fetch (on_message handler m s).0.receiver
      ≡ open_fetch s.receiver
unfolding on_message type_of handle_event handle_request
settled-on_message handler (hello m) s = refl
settled-on_message handler (new_transaction tx) s = refl
settled-on_message handler (new_block m) s = refl
settled-on_message handler (new_block_height n) s = refl
settled-on_message handler (new_consensus_message m) s = refl
settled-on_message handler (get_consented_header n) s =
    ap (λ l. l ++ open_fetch s.receiver)
      (settled-reply consented_header (handler.answer_consented_header n))
settled-on_message handler (get_headers range) s =
    ap (λ l. l ++ open_fetch s.receiver) (settled-reply headers (handler.answer_headers range))
settled-on_message handler (get_bodies range) s =
    ap (λ l. l ++ open_fetch s.receiver) (settled-reply bodies (handler.answer_bodies range))
settled-on_message handler (consented_header m) s = settled-response (consented_header m) s.receiver
settled-on_message handler (headers hs) s = settled-response (headers hs) s.receiver
settled-on_message handler (bodies bs) s = settled-response (bodies bs) s.receiver

ask-open :
    (number : ℕ) (q : Request) (s : Protocol) → open_fetch (ask number q s).0.receiver ≡ number ∷ []
unfolding ask fetch_consented_header fetch_headers fetch_bodies fetch
ask-open number (header_at height) s = refl
ask-open number (headers_in range) s = refl
ask-open number (bodies_in range) s = refl

-- In every run in which a fetch is made only while none waits, and its message is sent, whatever
-- messages come, the fetches that have been settled, in the order in which they were, followed by
-- the one that waits, are the fetches that were made: each is settled once at most, and none out of
-- turn.
pub Run-settled :
    {made done : List ℕ} {s : Protocol} → Run made done s → made ≡ done ++ open_fetch s.receiver
Run-settled start = refl
Run-settled (asks {made} {done} {s} number q closed run) =
    let before : made ≡ done =
      Run-settled run ∙ ap (λ o. done ++ open_fetch o) closed ∙ append-nil done in
    rw (ask-open number q s, before) refl
Run-settled (hears {done = done} {s} handler m run) =
    Run-settled run
    ∙ ap (λ l. done ++ l) (sym (settled-on_message handler m s))
    ∙ sym (
        append_assoc done (settled (on_message handler m s).1)
          (open_fetch (on_message handler m s).0.receiver))
