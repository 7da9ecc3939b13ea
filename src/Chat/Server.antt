-- ===== src/Chat/Server.antt =====
-- 5/chat_server.cpp. Peers are known by their place in `peers`, from which none is ever removed.
pub mod Broadcast
pub mod Events
pub mod Heard
pub mod Kept
use system_prog.Common.{
  ℕ, zero, suc, ◌+◌, Bool, true, false, not, ◌&&◌, ◌||◌, Option, none, some, List, [], ◌∷◌, ◌++◌,
  ltb, if◌then◌else◌, ◌==◌, is_empty, length, get_elem?, set, Bytes,
}
use system_prog.Chat.Framing.{
  ChatMessage, ErrorCode, ok, timeout, not_started, sys, trim, all_lines,
}
use system_prog.Chat.Link.{Link, SendAnswer, flush, append_output}

pub record Peer : Type 0 where
  pub link : Link
  pub input_buffer : Bytes
  pub name : Bytes
  pub name_received : Bool

-- The answers of the next calls of `send` are a part of the state.
pub record Server : Type 0 where
  pub started : Bool
  pub peers : List Peer
  pub messages : List ChatMessage
  pub input_buffer : Bytes
  pub answers : List SendAnswer

abbrev pub new_link : Link
new_link = record { connected = true; output_buffer = []; output_sent = 0; taken = [] }

abbrev pub new_peer : Peer
new_peer = record { link = new_link; input_buffer = []; name = []; name_received = false }

-- What `accept`, `fcntl` and `epoll_ctl` do for one connection that waits.
pub data Accepted : Type 0 where
  connection again refused : Accepted

-- `accept_pending_clients`: the error, or none.
pub accept_pending_clients : List Accepted → Server → Server × ErrorCode
accept_pending_clients [] s = (s, ok)
accept_pending_clients (connection ∷ more) s =
    accept_pending_clients more (record s { peers = s.peers ++ new_peer ∷ [] })
accept_pending_clients (again ∷ more) s = accept_pending_clients more s
accept_pending_clients (refused ∷ more) s = (s, sys)

-- The text that goes to the others: with the name before it, if there is one.
abbrev pub full_message : Bytes → Bytes → Bytes
full_message name text =
    if is_empty name then text ++ 10 ∷ [] else name ++ 58 ∷ 32 ∷ (text ++ 10 ∷ [])

abbrev pub send_to : Peer → Bytes → List SendAnswer → Peer × List SendAnswer
send_to p bytes answers =
    let r = flush answers (append_output p.link bytes) in (record p { link = r.0 }, r.1)

-- Whether the peer at place `j` is left out: it is gone, or it is the sender.
abbrev pub left_out : Peer → ℕ → Option ℕ → Bool
left_out p j none = not p.link.connected
left_out p j (some i) = not p.link.connected || j == i

-- The loop over the peers, from place `j` on.
unfoldable pub broadcast :
    ℕ → Option ℕ → Bytes → List Peer → List SendAnswer → List Peer × List SendAnswer
broadcast j sender bytes [] answers = ([], answers)
broadcast j sender bytes (p ∷ ps) answers =
    let sent = if left_out p j sender then (p, answers) else send_to p bytes answers in
    let rest = broadcast (suc j) sender bytes ps sent.1 in (sent.0 ∷ rest.0, rest.1)

abbrev pub broadcast_from : Server → Option ℕ → ChatMessage → Bytes → Server
broadcast_from s sender message bytes =
    let r = broadcast 0 sender bytes s.peers s.answers in
    record s { messages = s.messages ++ message ∷ []; peers = r.0; answers = r.1 }

-- The name that a peer has for its messages.
abbrev pub named : Peer → Bytes
named p = if p.name_received then p.name else []

unfoldable pub say : Server → ℕ → Peer → Bytes → Server
say s i p text =
    if is_empty text
    then s
    else if p.name_received
    then broadcast_from s (some i) (record { author = p.name; text = text })
        (full_message (named p) text)
    else record s { peers = set s.peers i (record p { name = text; name_received = true }) }

abbrev pub say_at : Server → ℕ → Option Peer → Bytes → Server
say_at s i none text = s
say_at s i (some p) text = say s i p text

-- A line of peer `i`.
unfoldable pub handle_line : ℕ → Server → Bytes → Server
unfolding say
handle_line i s line = say_at s i (get_elem? s.peers i) (trim line)

abbrev pub keep_rest : Server → ℕ → Option Peer → Bytes → Server
keep_rest s i none rest = s
keep_rest s i (some p) rest = record s { peers = set s.peers i (record p { input_buffer = rest }) }

-- The loop over the lines of peer `i`; the rest goes back to its buffer.
unfoldable pub read_lines : Server → ℕ → Bytes → Server
read_lines s i buffer =
    let r = all_lines (handle_line i) buffer s in keep_rest r.0 i (get_elem? r.0.peers i) r.1

-- `chat_server_pop_next`.
unfoldable pub chat_server_pop_next : Server → Server × Option ChatMessage
chat_server_pop_next s = elim s.messages [
  | [] ↦ (s, none)
  | m ∷ ms ↦ (record s { messages = ms }, some m)
]

abbrev pub server_name : Bytes
server_name = 115 ∷ 101 ∷ 114 ∷ 118 ∷ 101 ∷ 114 ∷ []

-- A line of the administrator.
unfoldable pub feed_line : Server → Bytes → Server
feed_line s line =
    let text = trim line in
    if is_empty text
    then s
    else broadcast_from s none (record { author = server_name; text = text })
        (full_message server_name text)

unfoldable pub feed_accepted : Server × ErrorCode → Bytes → Server × ErrorCode
unfolding feed_line
feed_accepted (s, ok) bytes =
    let r = all_lines feed_line (s.input_buffer ++ bytes) s in
    (record r.0 { input_buffer = r.1 }, ok)
feed_accepted (s, code) bytes = (s, code)

-- The message is not null; the first argument is what `accept_pending_clients` meets.
unfoldable pub chat_server_feed : List Accepted → Server → Bytes → Server × ErrorCode
unfolding accept_pending_clients feed_accepted
chat_server_feed accepted s bytes =
    if s.started
    then if is_empty bytes then (s, ok) else feed_accepted (accept_pending_clients accepted s) bytes
    else (s, not_started)

-- The events that are waited for: 1 for input and 2 for output.
any_output : List Peer → Bool
any_output [] = false
any_output (p ∷ ps) =
    (p.link.connected && ltb p.link.output_sent (length p.link.output_buffer)) || any_output ps

unfoldable pub chat_server_get_events : Server → ℕ
unfolding any_output
chat_server_get_events s = if s.started then (if any_output s.peers then 3 else 1) else 0
