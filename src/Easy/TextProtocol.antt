-- ===== src/Easy/TextProtocol.antt =====
-- packages/easy-framework/src/memcached-compatible-server/protocol.ts: MemcachedTextProtocol. The server is
-- any that has the operations of MemcachedSubset. What is written to the socket is a list of outputs.
-- The buffer is the concatenation of its parts, and remainBytes stands with the data handler: neither
-- is read otherwise. `decode` is toString of a buffer.
pub mod Broken
pub mod Chunks
pub mod Division
pub mod Framing
use uniqys_kit.Prelude.{
  ℕ, zero, suc, ◌+◌, ◌*◌, ◌-◌, ◌==◌, Bool, true, false, ◌&&◌, Option, none, some, List, [], ◌∷◌,
  ◌++◌, map, if◌then◌else◌, leb, length, take, drop, Error, Result, ok, err, out_of_fuel,
}
use uniqys_kit.Prelude.Int.{ℤ, pos, negsuc}
use uniqys_kit.Types.FixedBytes.{Bytes, equals}
use uniqys_kit.Easy.Memcached.{Response, not_found, ValueS}
use uniqys_kit.Easy.Parameters
use uniqys_kit.Easy.Parameters.{Text, codes, ClientError, Fetched, got, bad, Storage}
use uniqys_kit.Easy.TextLines.{
  slice_to, slice_from, is_enough, minus, split, prefixed, is_lf, find_crlf,
}

pub data Output : Type 0 where
  response : Response → Output
  value : ValueS Text → Output
  value_with_cas : ValueS Text → Output
  stat : Text → Text → Output
  version : Text → Output
  end : Output
  error : Output
  server_error : Error → Output
  client_error : ClientError → Output
  closed : Output

pub data Fault : Type 0 where
  client_fault : ClientError → Fault
  server_fault : Error → Fault

-- incr and decr answer with a Response: their number, or not_found.
pub record MemcachedSubset (Server : Type 0) : Type 0 where
  pub set : Text → ℕ → Bytes → Server → Server × Result Response
  pub add : Text → ℕ → Bytes → Server → Server × Result Response
  pub replace : Text → ℕ → Bytes → Server → Server × Result Response
  pub append : Text → Bytes → Server → Server × Result Response
  pub prepend : Text → Bytes → Server → Server × Result Response
  pub cas : Text → ℕ → ℤ → Bytes → Server → Server × Result Response
  pub get : List Text → Server → List (ValueS Text) × Result (Unit {0})
  pub gets : List Text → Server → List (ValueS Text) × Result (Unit {0})
  pub delete : Text → Server → Server × Result Response
  pub incr : Text → ℤ → Server → Server × Result Response
  pub decr : Text → ℤ → Server → Server × Result Response
  pub stats : List Text → Server → List (Text × Text) × Result (Unit {0})
  pub flush : Server → Server × Result Response
  pub version : Server → Result Text
  pub verbosity : ℤ → Server → Server × Result Response
  pub quit : Server → Server × Result (Unit {0})

-- What a data handler is for.
pub data Pending : Type 0 where
  to_set : Storage → Pending
  to_add : Storage → Pending
  to_replace : Storage → Pending
  to_append : Storage → Pending
  to_prepend : Storage → Pending
  to_cas : Storage → ℤ → Pending

pub record DataHandler : Type 0 where
  pub remain_bytes : ℤ
  pub pending : Pending

pub record Protocol (Server : Type 0) : Type 0 where
  pub buffer : Bytes
  pub data_handler : Option DataHandler
  pub server : Server

-- A call that may throw, after it has written.
abbrev pub Ran : Type 0 → Type 0
Ran Server = Protocol Server × List Output × Option Fault

module _ {Server : Type 0} (decode : Bytes → Text) (parse_int : Text → Option ℤ)
    (server : MemcachedSubset Server) where
  unfoldable pub fetch : {A : Type 0} → Fetched A → (A → Ran Server) → Protocol Server → Ran Server
  fetch (got a) next p = next a
  fetch (bad e) next p = (p, [], some (client_fault e))

  -- writeResponse and writeNumber
  unfoldable pub write : Bool → Output → List Output
  write true output = []
  write false output = output ∷ []

  unfoldable pub reply : Bool → Protocol Server → Server × Result Response → Ran Server
  unfolding write
  reply quiet p (s, ok r) = (record p { server = s }, write quiet (response r), none)
  reply quiet p (s, err e) = (record p { server = s }, [], some (server_fault e))

  -- `for await (const value of …) { write(value) }`, and then END
  unfoldable pub list_out :
      {A : Type 0} → (A → Output) → List A × Result (Unit {0}) → Protocol Server → Ran Server
  list_out output (values, ok done) p = (p, map output values ++ (end ∷ []), none)
  list_out output (values, err e) p = (p, map output values, some (server_fault e))

  unfoldable pub set_data_handler : Storage → Pending → Protocol Server → Ran Server
  set_data_handler request pending p = (
    record p { data_handler = some (record { remain_bytes = request.bytes; pending = pending }) },
    [],
    none,
  )

  unfoldable pub version_out : Result Text → Protocol Server → Ran Server
  version_out (ok v) p = (p, version v ∷ [], none)
  version_out (err e) p = (p, [], some (server_fault e))

  unfoldable pub quit_out : Server × Result (Unit {0}) → Protocol Server → Ran Server
  quit_out (s, ok done) p = (record p { server = s }, closed ∷ [], none)
  quit_out (s, err e) p = (record p { server = s }, [], some (server_fault e))

  -- The cases of the switch from `get` on.
  unfoldable pub process_other : Text → List Text → Protocol Server → Ran Server
  unfolding fetch list_out reply version_out quit_out
  process_other command params p =
      if equals command (codes "get")
      then fetch (Parameters.get params) (λ keys. list_out value (server.get keys p.server) p) p
      else if equals command (codes "gets")
      then fetch (Parameters.get params)
          (λ keys. list_out value_with_cas (server.gets keys p.server) p) p
      else if equals command (codes "delete")
      then fetch (Parameters.del params)
          (λ (key, quiet). reply quiet p (server.delete key p.server)) p
      else if equals command (codes "incr")
      then fetch (Parameters.incr_decr parse_int params)
          (λ (key, amount, quiet). reply quiet p (server.incr key amount p.server)) p
      else if equals command (codes "decr")
      then fetch (Parameters.incr_decr parse_int params)
          (λ (key, amount, quiet). reply quiet p (server.decr key amount p.server)) p
      else if equals command (codes "stats")
      then list_out (λ (name, content). stat name content) (server.stats params p.server) p
      else if equals command (codes "flush_all")
      then fetch (Parameters.flush parse_int params)
          (λ (delay, quiet). reply quiet p (server.flush p.server)) p
      else if equals command (codes "version")
      then fetch (Parameters.none_of params) (λ done. version_out (server.version p.server) p) p
      else if equals command (codes "verbosity")
      then fetch (Parameters.verb parse_int params)
          (λ (level, quiet). reply quiet p (server.verbosity level p.server)) p
      else if equals command (codes "quit")
      then fetch (Parameters.none_of params) (λ done. quit_out (server.quit p.server) p) p
      else (p, error ∷ [], none)

  abbrev pub store_by : (Storage → Pending) → List Text → Protocol Server → Ran Server
  store_by pending params p =
      fetch (Parameters.storage parse_int params)
        (λ request. set_data_handler request (pending request) p) p

  unfoldable pub process_command : Text → List Text → Protocol Server → Ran Server
  unfolding fetch set_data_handler process_other
  process_command [] params p = (p, [], none)
  process_command (c ∷ cs) params p =
      let command : Text = c ∷ cs in
      if equals command (codes "set")
      then store_by to_set params p
      else if equals command (codes "add")
      then store_by to_add params p
      else if equals command (codes "replace")
      then store_by to_replace params p
      else if equals command (codes "append")
      then store_by to_append params p
      else if equals command (codes "prepend")
      then store_by to_prepend params p
      else if equals command (codes "cas")
      then fetch (Parameters.cas parse_int params)
          (λ (request, unique). set_data_handler request (to_cas request unique) p) p
      else process_other command params p

  unfoldable pub run_data : Pending → Bytes → Protocol Server → Ran Server
  run_data (to_set r) bytes p = reply r.no_reply p (server.set r.key r.flags bytes p.server)
  run_data (to_add r) bytes p = reply r.no_reply p (server.add r.key r.flags bytes p.server)
  run_data (to_replace r) bytes p = reply r.no_reply p (server.replace r.key r.flags bytes p.server)
  run_data (to_append r) bytes p = reply r.no_reply p (server.append r.key bytes p.server)
  run_data (to_prepend r) bytes p = reply r.no_reply p (server.prepend r.key bytes p.server)
  run_data (to_cas r unique) bytes p =
      reply r.no_reply p (server.cas r.key r.flags unique bytes p.server)

  -- One round of processChunk: it waits for the next chunk, or goes on with the rest, or throws.
  pub data Round : Type 0 where
    waits : Protocol Server → Round
    goes_on : Bytes → Protocol Server → List Output → Round
    throws : Protocol Server → List Output → Fault → Round

  unfoldable pub after : Bytes → Ran Server → Round
  after rest (p, outputs, none) = goes_on rest p outputs
  after rest (p, outputs, some fault) = throws p outputs fault

  unfoldable pub process_words : Text × List Text → Protocol Server → Ran Server
  process_words (command, params) p = process_command command params p

  unfoldable pub line_round : Bytes → Protocol Server → Option (Bytes × Bytes) → Round
  line_round chunk p none = waits (record p { buffer = p.buffer ++ chunk })
  line_round chunk p (some (line, rest)) =
      after rest (process_words (split (decode (p.buffer ++ line))) (record p { buffer = [] }))

  unfoldable pub data_round : Bytes → Protocol Server → Pending → ℤ → Round
  data_round chunk p pending remain =
      if is_enough remain chunk
      then after (slice_from remain chunk) (
          run_data pending (p.buffer ++ slice_to remain chunk)
            (record p { buffer = []; data_handler = none }))
      else waits (record p {
        buffer = p.buffer ++ chunk;
        data_handler =
            some (record { remain_bytes = minus remain (length chunk); pending = pending });
      })

  unfoldable pub round : Bytes → Protocol Server → Option DataHandler → Round
  round chunk p none = line_round chunk p (find_crlf chunk)
  round chunk p (some handler) = data_round chunk p handler.pending handler.remain_bytes

  unfoldable pub prepend_out : List Output → Ran Server → Ran Server
  prepend_out outputs (p, more, fault) = (p, outputs ++ more, fault)

  -- The recursive call is the last thing that a round does.
  unfoldable pub follow : (Bytes → Protocol Server → Ran Server) → Round → Ran Server
  unfolding prepend_out
  follow call (waits q) = (q, [], none)
  follow call (goes_on rest q outputs) = prepend_out outputs (call rest q)
  follow call (throws q outputs fault) = (q, outputs, some fault)

  unfoldable pub process : ℕ → Bytes → Protocol Server → Ran Server
  process zero chunk p = (p, [], some (server_fault out_of_fuel))
  process (suc fuel) chunk p = follow (process fuel) (round chunk p p.data_handler)

  -- Every two rounds take two bytes at least.
  unfoldable pub process_chunk : Bytes → Protocol Server → Ran Server
  unfolding process
  process_chunk chunk p = process (length chunk + length chunk + 2) chunk p

  abbrev pub error_out : Fault → Output
  error_out (client_fault e) = client_error e
  error_out (server_fault e) = server_error e

  -- The handler of `data`: an error is written to the socket.
  unfoldable pub answered : Ran Server → Protocol Server × List Output
  answered (p, outputs, none) = (p, outputs)
  answered (p, outputs, some fault) = (p, outputs ++ (error_out fault ∷ []))

  unfoldable pub on_data : Bytes → Protocol Server → Protocol Server × List Output
  unfolding answered process_chunk
  on_data chunk p = answered (process_chunk chunk p)
