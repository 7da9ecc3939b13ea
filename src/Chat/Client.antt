-- ===== src/Chat/Client.antt =====
-- 5/chat_client.cpp.
pub mod Chunks
pub mod Feed
use system_prog.Common.{
  ℕ, ◌==◌, ◌||◌, Bool, true, false, not, ◌&&◌, Option, none, some, List, [], ◌∷◌, ◌++◌, ltb,
  if◌then◌else◌, is_empty, length, Bytes,
}
use system_prog.Chat.Framing.{
  ChatMessage, ErrorCode, ok, timeout, no_addr, already_started, not_started, sys, trim,
  split_author, all_lines,
}
use system_prog.Chat.Link.{Link, SendAnswer, flush, append_output}

-- The answers of the next calls of `send` are a part of the state.
pub record Client : Type 0 where
  pub link : Link
  pub input_buffer : Bytes
  pub messages : List ChatMessage
  pub name : Bytes
  pub name_sent : Bool
  pub answers : List SendAnswer

-- Not connected yet.
abbrev pub chat_client_new : Bytes → Client
chat_client_new name = record {
  link = record { connected = false; output_buffer = []; output_sent = 0; taken = [] };
  input_buffer = [];
  messages = [];
  name = name;
  name_sent = false;
  answers = [];
}

abbrev pub has_colon : Bytes → Bool
has_colon [] = false
has_colon (b ∷ bs) = b == 58 || has_colon bs

-- What `getaddrinfo`, `socket` and `connect` do.
pub data ConnectAnswer : Type 0 where
  unresolved refused accepted : ConnectAnswer

-- The address has a host and a port; nothing is reset but the socket.
unfoldable pub chat_client_connect : Client → Bytes → ConnectAnswer → Client × ErrorCode
chat_client_connect c addr answer =
    if c.link.connected
    then (c, already_started)
    else if has_colon addr
    then elim answer [
      | unresolved ↦ (c, no_addr)
      | refused ↦ (c, sys)
      | accepted ↦ (record c { link = record c.link { connected = true; taken = [] } }, ok)
    ]
    else (c, no_addr)

abbrev pub author_of : Bytes → Option (Bytes × Bytes) → ChatMessage
author_of text none = record { author = []; text = text }
author_of text (some (author, rest)) = record { author = author; text = rest }

-- A line that was received.
abbrev pub take_line : List ChatMessage → Bytes → List ChatMessage
take_line messages line =
    let text = trim line in
    if is_empty text then messages else messages ++ author_of text (split_author text) ∷ []

-- The loop over the lines in the input buffer.
unfoldable pub read_lines : Client → Client
read_lines c =
    let r = all_lines take_line c.input_buffer c.messages in
    record c { messages = r.0; input_buffer = r.1 }

abbrev pub buffer_input : Client → Bytes → Client
buffer_input c bytes = record c { input_buffer = c.input_buffer ++ bytes }

abbrev pub disconnect : Client → Client
disconnect c = record c { link = record c.link { connected = false } }

-- What the calls of `recv` answer.
pub data RecvAnswer : Type 0 where
  received : Bytes → RecvAnswer
  closed interrupted would_block broken : RecvAnswer

-- The loop of `recv`: false where it ends the update with an error.
unfoldable pub receive : List RecvAnswer → Client → Client × Bool
receive [] c = (c, true)
receive (received bytes ∷ answers) c = receive answers (buffer_input c bytes)
receive (interrupted ∷ answers) c = receive answers c
receive (would_block ∷ answers) c = (c, true)
receive (closed ∷ answers) c = (disconnect c, false)
receive (broken ∷ answers) c = (disconnect c, false)

unfoldable pub flush_output : Client → Client
flush_output c = let r = flush c.answers c.link in record c { link = r.0; answers = r.1 }

-- What `poll` answers: an error, no event in time, or the events.
pub data PollAnswer : Type 0 where
  failed timed_out hung_up : PollAnswer
  events : Bool → List RecvAnswer → Bool → PollAnswer

-- After the input: what is left to send is sent.
write_output : Client → Bool → Client
unfolding flush_output
write_output c writable =
    let c' = if writable then flush_output c else c in
    if c'.link.connected && not (is_empty c'.link.output_buffer) then flush_output c' else c'

pub after_input : Client × Bool → Bool → Client × ErrorCode
unfolding write_output
after_input (c, false) writable = (c, sys)
after_input (c, true) writable = (write_output (read_lines c) writable, ok)

on_poll : Client → PollAnswer → Client × ErrorCode
unfolding receive after_input write_output
on_poll c failed = (c, sys)
on_poll c timed_out = (c, timeout)
on_poll c hung_up = (disconnect c, sys)
on_poll c (events false answers writable) = (write_output c writable, ok)
on_poll c (events true answers writable) = after_input (receive answers c) writable

unfoldable pub chat_client_update : Client → PollAnswer → Client × ErrorCode
unfolding on_poll
chat_client_update c answer = if c.link.connected then on_poll c answer else (c, not_started)

unfoldable pub chat_client_pop_next : Client → Client × Option ChatMessage
chat_client_pop_next c = elim c.messages [
  | [] ↦ (c, none)
  | m ∷ ms ↦ (record c { messages = ms }, some m)
]

-- The name goes before the first bytes, if there is one.
abbrev pub with_name : Client → Client
with_name c =
    if not c.name_sent && not (is_empty c.name)
    then record c { link = append_output c.link (c.name ++ 10 ∷ []); name_sent = true }
    else c

unfoldable pub feed_bytes : Client → Bytes → Client × ErrorCode
unfolding flush_output
feed_bytes c bytes =
    let named = with_name c in
    let c' = flush_output (record named { link = append_output named.link bytes }) in
    (c', if c'.link.connected then ok else sys)

unfoldable pub chat_client_feed : Client → Bytes → Client × ErrorCode
unfolding feed_bytes
chat_client_feed c bytes =
    if c.link.connected
    then (if is_empty bytes then (c, ok) else feed_bytes c bytes)
    else (c, not_started)

-- The events that are waited for: 1 for input and 2 for output.
unfoldable pub chat_client_get_events : Client → ℕ
chat_client_get_events c =
    if c.link.connected
    then if ltb c.link.output_sent (length c.link.output_buffer) then 3 else 1
    else 0
