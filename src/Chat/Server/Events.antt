-- ===== src/Chat/Server/Events.antt =====
-- The events of the sockets: `chat_server_update` of 5/chat_server.cpp.
use system_prog.Common.{
  ℕ, Bool, true, false, not, ◌||◌, Option, none, some, List, [], ◌∷◌, ◌++◌, ltb, if◌then◌else◌,
  ◌==◌, is_empty, length, get_elem?, set, Bytes,
}
use system_prog.Chat.Framing.{ErrorCode, ok, timeout, not_started, sys}
use system_prog.Chat.Link.{flush}
use system_prog.Chat.Server.{Peer, Server, Accepted, accept_pending_clients, read_lines}

-- What the calls of `recv` for one event answer.
pub data RecvAnswer : Type 0 where
  received : Bytes → RecvAnswer
  closed interrupted would_block broken : RecvAnswer

-- What is received, whether the peer has closed, and whether the system failed.
pub record Input : Type 0 where
  pub bytes : Bytes
  pub hung_up : Bool
  pub failed : Bool

abbrev no_input : Input
no_input = record { bytes = []; hung_up = false; failed = false }

unfoldable pub receive : List RecvAnswer → Input
receive [] = no_input
receive (received bytes ∷ answers) =
    let rest = receive answers in record rest { bytes = bytes ++ rest.bytes }
receive (interrupted ∷ answers) = receive answers
receive (closed ∷ answers) = record no_input { hung_up = true }
receive (would_block ∷ answers) = no_input
receive (broken ∷ answers) = record no_input { failed = true }

abbrev pub close_peer : Peer → Peer
close_peer p = record p { link = record p.link { connected = false } }

abbrev pub buffered : Peer → Input → Peer
buffered p input =
    let more = record p { input_buffer = p.input_buffer ++ input.bytes } in
    if input.hung_up then close_peer more else more

-- The part of an event that says there is input.
unfoldable pub read_peer : Server → ℕ → Peer → Input → Server
read_peer s i p input =
    let p' = buffered p input in
    read_lines (record s { peers = set s.peers i p' }) i p'.input_buffer

-- The part of an event that says there is room for output, and whether that moved anything.
abbrev pub write_peer : Server → ℕ → Option Peer → Server × Bool
write_peer s i none = (s, false)
write_peer s i (some p) =
    if ltb p.link.output_sent (length p.link.output_buffer)
    then (let r = flush s.answers p.link in
        (
          record s { peers = set s.peers i (record p { link = r.0 }); answers = r.1 },
          not (r.0.output_sent == p.link.output_sent) || is_empty r.0.output_buffer,
        ))
    else (s, false)

-- An event of the listening socket, or of a peer: an error or a hangup, or input, output or both.
pub data Event : Type 0 where
  incoming : List Accepted → Event
  dropped : ℕ → Event
  ready : ℕ → Bool → List RecvAnswer → Bool → Event

-- How an event ends: with the next one, and whether it made progress, or with an error.
pub data Outcome : Type 0 where
  goes_on : Bool → Outcome
  fails : ErrorCode → Outcome

-- Whether the input made progress: bytes came, the peer has closed, or there was a message.
abbrev pub read_progress : Server → Input → Server → Bool
read_progress s input s' =
    not (is_empty input.bytes) || input.hung_up || ltb (length s.messages) (length s'.messages)

abbrev pub write_if : Bool → Server → ℕ → Server × Bool
write_if true s i = write_peer s i (get_elem? s.peers i)
write_if false s i = (s, false)

unfoldable pub peer_ready : Server → ℕ → Peer → Bool → Input → Bool → Server × Outcome
peer_ready s i p false input writable = let r = write_if writable s i in (r.0, goes_on r.1)
peer_ready s i p true input writable =
    if input.failed
    then (record s { peers = set s.peers i (buffered p input) }, fails sys)
    else (let read = read_peer s i p input in
        let r = write_if writable read i in (r.0, goes_on (read_progress s input read || r.1)))

-- An event of a peer that is still open.
unfoldable pub peer_event : Server → ℕ → Option Peer → (Peer → Server × Outcome) → Server × Outcome
peer_event s i none handle = (s, goes_on false)
peer_event s i (some p) handle = if p.link.connected then handle p else (s, goes_on false)

abbrev pub outcome_of : ErrorCode → Outcome
outcome_of ok = goes_on true
outcome_of code = fails code

unfoldable pub handle_event : Server → Event → Server × Outcome
unfolding accept_pending_clients peer_event peer_ready receive
handle_event s (incoming answers) =
    let r = accept_pending_clients answers s in (r.0, outcome_of r.1)
handle_event s (dropped i) =
    peer_event s i (get_elem? s.peers i)
      (λ p. (record s { peers = set s.peers i (close_peer p) }, goes_on true))
handle_event s (ready i readable answers writable) =
    peer_event s i (get_elem? s.peers i) (λ p. peer_ready s i p readable (receive answers) writable)

abbrev pub after : Server × Outcome → (Bool → Server → Server × ErrorCode) → Server × ErrorCode
after (s, goes_on b) more = more b s
after (s, fails code) more = (s, code)

-- The loop over the events, up to the first error.
unfoldable pub handle_events : List Event → Bool → Server → Server × ErrorCode
handle_events [] progress s = (s, if progress then ok else timeout)
handle_events (e ∷ es) progress s =
    after (handle_event s e) (λ b s'. handle_events es (progress || b) s')

-- What `epoll_wait` answers: an error, or the events, of which there are none in time.
unfoldable pub chat_server_update : Server → Option (List Event) → Server × ErrorCode
chat_server_update s answer =
    if s.started
    then elim answer [
      | none ↦ (s, sys)
      | some [] ↦ (s, timeout)
      | some (e ∷ es) ↦ handle_events (e ∷ es) false s
    ]
    else (s, not_started)
