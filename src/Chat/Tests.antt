-- ===== src/Chat/Tests.antt =====
-- Runs of the chat, and examples of its theorems.
use system_prog.Chat.Client.Chunks.{read_lines_append, update-hangs_up, hangs_up}
use system_prog.Chat.Client.Feed.{feed-connect}
use system_prog.Chat.Client.{
  Client, chat_client_new, read_lines, buffer_input, disconnect, PollAnswer, events,
  chat_client_update, chat_client_connect, accepted, chat_client_feed,
}
use system_prog.Chat.Framing.Lines.{lines}
use system_prog.Chat.Framing.Trim.{IsWord}
use system_prog.Chat.Framing.{
  trim, trim_left, trim_right, split_author, each_line, extract_message, sys, not_started,
}
use system_prog.Chat.Link.Stream.{stream-append-flush}
use system_prog.Chat.Link.{append_output, Link, takes, interrupted, flush, stream, unsent}
use system_prog.Chat.Relay.Greets.{chat_client_feed-greets}
use system_prog.Chat.Relay.{Relayed, read_lines-Relayed}
use system_prog.Chat.Server.Broadcast.{Ranged}
use system_prog.Chat.Server.Events.{
  Event, incoming, dropped, ready, received, closed, chat_server_update,
}
use system_prog.Chat.Server.Heard.{Talks}
use system_prog.Chat.Server.Kept.Events.{server-Kept}
use system_prog.Chat.Server.Kept.{Kept}
use system_prog.Chat.Server.{
  Peer, Server, new_peer, new_link, connection, chat_server_feed, read_lines as server_reads,
}
use system_prog.Common.{◌≡◌, refl, true, false, none, some, List, [], ◌∷◌, ◌++◌, Bytes, arith}

-- "A", a line "B", and two lines of which the second does not end.
abbrev name : Bytes
name = 65 ∷ []

abbrev line : Bytes
line = 66 ∷ 10 ∷ []

abbrev text : Bytes
text = 32 ∷ 66 ∷ 13 ∷ 10 ∷ 65 ∷ 58 ∷ 32 ∷ 67 ∷ []

abbrev busy : Link
busy = record { connected = true; output_buffer = text; output_sent = 1; taken = 9 ∷ [] }

-- All that is left is sent, and more is added.
stream-append-flush_example :
    stream (append_output (flush (takes 2 ∷ interrupted ∷ takes 9 ∷ []) busy).0 line)
    ≡ stream busy ++ line
stream-append-flush_example =
    stream-append-flush (takes 2 ∷ interrupted ∷ takes 9 ∷ []) busy line
      (record { within = omega arith })

lines_test : lines text ≡ ((32 ∷ 66 ∷ 13 ∷ []) ∷ [], 65 ∷ 58 ∷ 32 ∷ 67 ∷ [])
unfolding lines
lines_test = refl

abbrev client : Client
client = record (chat_client_new name) { link = new_link }

read_lines_append_example :
    read_lines (buffer_input (read_lines (buffer_input client text)) line)
    ≡ read_lines (buffer_input client (text ++ line))
read_lines_append_example = read_lines_append client text line

read_lines_test :
    (read_lines (buffer_input client (text ++ line))).messages
    ≡ record { author = []; text = 66 ∷ [] } ∷ record { author = 65 ∷ []; text = 67 ∷ 66 ∷ [] } ∷ []
unfolding read_lines trim trim_left trim_right split_author each_line extract_message
read_lines_test = refl

update-hangs_up_example :
    (chat_client_update client (events true (hangs_up (text ∷ line ∷ [])) false)
      ≡ (disconnect (buffer_input client (text ++ line)), sys))
    × ((answer : PollAnswer)
        → chat_client_update (disconnect (buffer_input client (text ++ line))) answer
          ≡ (disconnect (buffer_input client (text ++ line)), not_started))
update-hangs_up_example = update-hangs_up client (text ∷ line ∷ []) false refl

abbrev lost : Client
lost = record client { link = record busy { connected = false }; name_sent = true }

feed-connect_example :
    stream (chat_client_feed (chat_client_connect lost (58 ∷ []) accepted).0 line).0.link
    ≡ unsent lost.link ++ line
feed-connect_example =
    feed-connect lost (58 ∷ []) line (record { within = omega arith }) refl refl refl refl

name-IsWord : IsWord name
unfolding trim_right
name-IsWord = record { begins = refl; trimmed = refl; one_line = refl }

name_plain : split_author name ≡ none
unfolding split_author
name_plain = refl

abbrev talker : Peer
talker = record new_peer { name = name; name_received = true }

-- A peer that has its name, and one that hears it.
abbrev server_of : Peer → Server
server_of p = record {
  started = true;
  peers = new_peer ∷ p ∷ [];
  messages = [];
  input_buffer = [];
  answers = takes 2 ∷ [];
}

server_of-Ranged : Ranged (server_of talker).peers
server_of-Ranged = (record { within = omega arith }, (record { within = omega arith }, tt))

talker-Talks : Talks (server_of talker) 1 name
talker-Talks = record {
  me = talker;
  at = refl;
  has_name = refl;
  received = refl;
  ranged = server_of-Ranged;
  healthy = tt;
}

read_lines-Relayed_example :
    Relayed (server_of talker) name new_peer 0 text (server_reads (server_of talker) 1 text)
read_lines-Relayed_example =
    read_lines-Relayed (server_of talker) 1 0 new_peer name text (omega arith) name-IsWord
      name_plain talker-Talks refl refl

new-Ranged : Ranged (server_of new_peer).peers
new-Ranged = (record { within = omega arith }, (record { within = omega arith }, tt))

chat_client_feed-greets_example :
    Relayed
      (server_of new_peer)
      name
      new_peer
      0
      text
      (server_reads (server_of new_peer) 1 (stream (chat_client_feed client text).0.link))
chat_client_feed-greets_example =
    chat_client_feed-greets client (server_of new_peer) 1 0 new_peer new_peer text
      (record { within = omega arith }) refl refl refl refl (omega arith) name-IsWord name_plain
      refl refl refl refl new-Ranged tt

abbrev happens : List Event
happens =
    incoming (connection ∷ []) ∷ ready 1 true (received text ∷ closed ∷ []) true ∷ dropped 0 ∷ []

server-Kept_example :
    Kept (server_of talker) (chat_server_update (server_of talker) (some happens)).0
    × Kept (server_of talker) (chat_server_feed (connection ∷ []) (server_of talker) line).0
server-Kept_example =
    server-Kept (server_of talker) (some happens) (connection ∷ []) line server_of-Ranged
