-- ===== src/Chat/Client/Chunks.antt =====
-- What the parts in which bytes arrive do to the client, and what a server that closes does.
use system_prog.Common.{
  ◌≡◌, ◌∙◌, append_assoc, append-nil, refl, sym, ap, Bool, true, false, List, [], ◌∷◌, ◌++◌,
  if_true, Bytes,
}
use system_prog.Chat.Client.{
  Client, read_lines, buffer_input, disconnect, take_line, RecvAnswer, received, closed, receive,
  PollAnswer, events, after_input, chat_client_update,
}
use system_prog.Chat.Framing.Lines.{all_lines-append}
use system_prog.Chat.Framing.{all_lines}
use system_prog.Chat.Framing.{ChatMessage, sys, not_started}

-- Reading the lines after each of two parts leaves the client, its messages and what waits for the
-- rest of a line, as reading them once after both does: it does not matter where a part ends.
pub read_lines_append :
    (c : Client) (a b : Bytes)
    → read_lines (buffer_input (read_lines (buffer_input c a)) b)
      ≡ read_lines (buffer_input c (a ++ b))
unfolding read_lines
read_lines_append c a b = sym (
    ap (λ (r : List ChatMessage × Bytes). record c { messages = r.0; input_buffer = r.1 })
      (ap (λ x. all_lines take_line x c.messages) (sym (append_assoc c.input_buffer a b))
        ∙ all_lines-append take_line (c.input_buffer ++ a) b c.messages))

-- The server sends the chunks and closes.
abbrev pub hangs_up : List Bytes → List RecvAnswer
hangs_up [] = closed ∷ []
hangs_up (b ∷ bs) = received b ∷ hangs_up bs

abbrev pub joined : List Bytes → Bytes
joined [] = []
joined (b ∷ bs) = b ++ joined bs

receive-hangs_up :
    (bs : List Bytes) (c : Client)
    → receive (hangs_up bs) c ≡ (disconnect (buffer_input c (joined bs)), false)
unfolding receive
receive-hangs_up [] c =
    ap (λ x. (disconnect (record c { input_buffer = x }), false)) (sym (append-nil c.input_buffer))
receive-hangs_up (b ∷ bs) c =
    receive-hangs_up bs (buffer_input c b)
    ∙ ap (λ x. (disconnect (record c { input_buffer = x }), false))
        (append_assoc c.input_buffer b (joined bs))

-- Where a server sends any bytes and closes before an update of a connected client reads them, the
-- update fails and leaves the messages as they are and the bytes in the input buffer, whole lines
-- among them; and every later update of that client changes nothing.
pub update-hangs_up :
    (c : Client) (bs : List Bytes) (writable : Bool)
    → c.link.connected ≡ true
    → (chat_client_update c (events true (hangs_up bs) writable)
        ≡ (disconnect (buffer_input c (joined bs)), sys))
      × ((answer : PollAnswer)
          → chat_client_update (disconnect (buffer_input c (joined bs))) answer
            ≡ (disconnect (buffer_input c (joined bs)), not_started))
unfolding chat_client_update
update-hangs_up c bs writable h =
    (if_true _ _ h ∙ ap (λ r. after_input r writable) (receive-hangs_up bs c), λ answer. refl)
