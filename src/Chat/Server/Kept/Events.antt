-- ===== src/Chat/Server/Kept/Events.antt =====
-- What no update and no feed of 5/chat_server.cpp undoes.
use mathlib.Core.Path.{subst}
use system_prog.Chat.Framing.Lines.{lines, all_lines_lem}
use system_prog.Chat.Framing.{ErrorCode, ok, trim, all_lines}
use system_prog.Chat.Link.Stream.{flush-InRange}
use system_prog.Chat.Server.Broadcast.{Ranged, Ranged-at}
use system_prog.Chat.Server.Events.{
  Input, close_peer, buffered, read_peer, write_peer, write_if, Event, incoming, dropped, ready,
  Outcome, goes_on, fails, peer_ready, peer_event, handle_event, after, handle_events,
  chat_server_update, receive,
}
use system_prog.Chat.Server.Kept.{
  Older-append, Kept, Kept-refl, Kept-trans, put-Kept, flush-Same, broadcast_from-Kept,
  handle_line-Kept, fold_lines-Kept,
}
use system_prog.Chat.Server.{
  Peer, Server, new_peer, Accepted, connection, again, refused, accept_pending_clients, server_name,
  full_message, handle_line, keep_rest, read_lines, feed_line, feed_accepted, chat_server_feed,
}
use system_prog.Common.{
  ℕ, ◌≡◌, append-nil, refl, sym, Bool, true, false, ◌||◌, Option, none, some, List, [], ◌∷◌, ◌++◌,
  ltb, if_both, is_empty, length, get_elem?, set, Bytes, arith,
}

keep_rest-Kept :
    (s : Server) (i : ℕ) (o : Option Peer) (rest : Bytes)
    → Ranged s.peers
    → get_elem? s.peers i ≡ o
    → Kept s (keep_rest s i o rest)
keep_rest-Kept s i none rest r e = Kept-refl s r
keep_rest-Kept s i (some p) rest r e =
    put-Kept s i (record p { input_buffer = rest }) s.answers r e
      (record { closed = λ c. c; received = λ h. h; same_name = λ h. refl })
      (Ranged-at s.peers i r e)

read_lines-Kept :
    (s : Server) (i : ℕ) (buffer : Bytes) → Ranged s.peers → Kept s (read_lines s i buffer)
unfolding read_lines
read_lines-Kept s i buffer r =
    let h =
      subst (λ (x : Server × Bytes). Kept s x.0) (sym (all_lines_lem (handle_line i) buffer s))
        (fold_lines-Kept (handle_line i) (handle_line-Kept i) (lines buffer).0 s r) in
    Kept-trans h (keep_rest-Kept _ i _ _ h.ranged refl)

buffered-Kept :
    (s : Server) (i : ℕ) (p : Peer) (input : Input)
    → Ranged s.peers
    → get_elem? s.peers i ≡ some p
    → Kept s (record s { peers = set s.peers i (buffered p input) })
buffered-Kept s i p input r e =
    if_both (λ q. Kept s (record s { peers = set s.peers i q })) input.hung_up _ _
      (put-Kept s i (close_peer (record p { input_buffer = p.input_buffer ++ input.bytes }))
        s.answers r e (record { closed = λ c. refl; received = λ h. h; same_name = λ h. refl })
        (record { within = (Ranged-at s.peers i r e).within }))
      (put-Kept s i (record p { input_buffer = p.input_buffer ++ input.bytes }) s.answers r e
        (record { closed = λ c. c; received = λ h. h; same_name = λ h. refl })
        (Ranged-at s.peers i r e))

write_peer-Kept :
    (s : Server) (i : ℕ) (o : Option Peer)
    → Ranged s.peers
    → get_elem? s.peers i ≡ o
    → Kept s (write_peer s i o).0
write_peer-Kept s i none r e = Kept-refl s r
write_peer-Kept s i (some p) r e =
    if_both (λ (x : Server × Bool). Kept s x.0)
      (ltb p.link.output_sent (length p.link.output_buffer)) _ _
      (put-Kept s i _ _ r e (flush-Same p p.link s.answers refl)
        (flush-InRange s.answers p.link (Ranged-at s.peers i r e)))
      (Kept-refl s r)

write_if-Kept : (b : Bool) (s : Server) (i : ℕ) → Ranged s.peers → Kept s (write_if b s i).0
write_if-Kept true s i r = write_peer-Kept s i (get_elem? s.peers i) r refl
write_if-Kept false s i r = Kept-refl s r

peer_ready-Kept :
    (s : Server) (i : ℕ) (p : Peer) (readable : Bool) (input : Input) (writable : Bool)
    → Ranged s.peers
    → get_elem? s.peers i ≡ some p
    → Kept s (peer_ready s i p readable input writable).0
unfolding peer_ready read_peer
peer_ready-Kept s i p false input writable r e = write_if-Kept writable s i r
peer_ready-Kept s i p true input writable r e =
    let b = buffered-Kept s i p input r e in
    let h = Kept-trans b (read_lines-Kept _ i (buffered p input).input_buffer b.ranged) in
    if_both (λ (x : Server × Outcome). Kept s x.0) input.failed _ _ b
      (Kept-trans h (write_if-Kept writable _ i h.ranged))

peer_event-Kept :
    (s : Server) (i : ℕ) (o : Option Peer) (handle : Peer → Server × Outcome)
    → Ranged s.peers
    → ((p : Peer) → o ≡ some p → Kept s (handle p).0)
    → Kept s (peer_event s i o handle).0
unfolding peer_event
peer_event-Kept s i none handle r k = Kept-refl s r
peer_event-Kept s i (some p) handle r k =
    if_both (λ (x : Server × Outcome). Kept s x.0) p.link.connected _ _ (k p refl) (Kept-refl s r)

Ranged-append : (ps : List Peer) → Ranged ps → Ranged (ps ++ new_peer ∷ [])
Ranged-append [] r = (record { within = omega arith }, tt)
Ranged-append (p ∷ ps) r = (r.0, Ranged-append ps r.1)

accept_pending_clients-Kept :
    (answers : List Accepted) (s : Server)
    → Ranged s.peers
    → Kept s (accept_pending_clients answers s).0
unfolding accept_pending_clients
accept_pending_clients-Kept [] s r = Kept-refl s r
accept_pending_clients-Kept (connection ∷ answers) s r =
    let one : Kept s (record s { peers = s.peers ++ new_peer ∷ [] }) = record {
      ranged = Ranged-append s.peers r;
      older = Older-append s.peers (new_peer ∷ []);
      heard = [];
      messages = sym (append-nil s.messages);
    } in
    Kept-trans one (accept_pending_clients-Kept answers _ one.ranged)
accept_pending_clients-Kept (again ∷ answers) s r = accept_pending_clients-Kept answers s r
accept_pending_clients-Kept (refused ∷ answers) s r = Kept-refl s r

handle_event-Kept : (s : Server) (e : Event) → Ranged s.peers → Kept s (handle_event s e).0
unfolding handle_event
handle_event-Kept s (incoming answers) r = accept_pending_clients-Kept answers s r
handle_event-Kept s (dropped i) r = peer_event-Kept s i (get_elem? s.peers i) _ r (λ p at.
    put-Kept s i (close_peer p) s.answers r at
      (record { closed = λ c. refl; received = λ h. h; same_name = λ h. refl })
      (record { within = (Ranged-at s.peers i r at).within }))
handle_event-Kept s (ready i readable answers writable) r =
    peer_event-Kept s i (get_elem? s.peers i) _ r
      (λ p at. peer_ready-Kept s i p readable (receive answers) writable r at)

after-Kept :
    (s : Server) (r : Server × Outcome) (more : Bool → Server → Server × ErrorCode)
    → Kept s r.0
    → ((b : Bool) (s' : Server) → Ranged s'.peers → Kept s' (more b s').0)
    → Kept s (after r more).0
after-Kept s (s', goes_on b) more h k = Kept-trans h (k b s' h.ranged)
after-Kept s (s', fails code) more h k = h

handle_events-Kept :
    (es : List Event) (progress : Bool) (s : Server)
    → Ranged s.peers
    → Kept s (handle_events es progress s).0
unfolding handle_events
handle_events-Kept [] progress s r = Kept-refl s r
handle_events-Kept (e ∷ es) progress s r =
    after-Kept s (handle_event s e) _ (handle_event-Kept s e r)
      (λ b s' r'. handle_events-Kept es (progress || b) s' r')

update-Kept :
    (s : Server) (answer : Option (List Event))
    → Ranged s.peers
    → Kept s (chat_server_update s answer).0
unfolding chat_server_update
update-Kept s none r =
    if_both (λ (x : Server × ErrorCode). Kept s x.0) s.started _ _ (Kept-refl s r) (Kept-refl s r)
update-Kept s (some []) r =
    if_both (λ (x : Server × ErrorCode). Kept s x.0) s.started _ _ (Kept-refl s r) (Kept-refl s r)
update-Kept s (some (e ∷ es)) r =
    if_both (λ (x : Server × ErrorCode). Kept s x.0) s.started _ _
      (handle_events-Kept (e ∷ es) false s r) (Kept-refl s r)

feed_line-Kept : (s : Server) (line : Bytes) → Ranged s.peers → Kept s (feed_line s line)
unfolding feed_line
feed_line-Kept s line r = if_both (Kept s) (is_empty (trim line)) _ _ (Kept-refl s r) (
    broadcast_from-Kept s none (record { author = server_name; text = trim line })
      (full_message server_name (trim line)) r)

with_input : {s s' : Server} (rest : Bytes) → Kept s s' → Kept s (record s' { input_buffer = rest })
with_input rest k = record {
  ranged = k.ranged;
  older = k.older;
  heard = k.heard;
  messages = k.messages;
}

lines-Kept :
    (s : Server) (buffer : Bytes)
    → Ranged s.peers
    → Kept s (record (all_lines feed_line buffer s).0 {
      input_buffer = (all_lines feed_line buffer s).1;
    })
lines-Kept s buffer r = with_input _ (
    subst (λ (x : Server × Bytes). Kept s x.0) (sym (all_lines_lem feed_line buffer s))
      (fold_lines-Kept feed_line feed_line-Kept (lines buffer).0 s r))

feed_accepted-Kept :
    (s : Server) (a : Server × ErrorCode) (bytes : Bytes)
    → Kept s a.0
    → Kept s (feed_accepted a bytes).0
unfolding feed_accepted
feed_accepted-Kept s (s', ok) bytes k =
    Kept-trans k (lines-Kept s' (s'.input_buffer ++ bytes) k.ranged)
feed_accepted-Kept s (s', code) bytes k = k

feed-Kept :
    (s : Server) (accepted : List Accepted) (bytes : Bytes)
    → Ranged s.peers
    → Kept s (chat_server_feed accepted s bytes).0
unfolding chat_server_feed
feed-Kept s accepted bytes r =
    if_both (λ (x : Server × ErrorCode). Kept s x.0) s.started _ _
      (if_both (λ (x : Server × ErrorCode). Kept s x.0) (is_empty bytes) _ _ (Kept-refl s r)
        (feed_accepted-Kept s (accept_pending_clients accepted s) bytes
          (accept_pending_clients-Kept accepted s r)))
      (Kept-refl s r)

-- Whatever `epoll_wait`, `accept`, `recv` and `send` answer, an update and a feed of a server whose
-- peers have sent no more than there was leave the peers such; keep every peer at its place, closed
-- if it was closed and with its name if it had given one; and keep the messages, with others behind
-- them.
pub server-Kept :
    (s : Server) (answer : Option (List Event)) (accepted : List Accepted) (bytes : Bytes)
    → Ranged s.peers
    → Kept s (chat_server_update s answer).0 × Kept s (chat_server_feed accepted s bytes).0
server-Kept s answer accepted bytes r = (update-Kept s answer r, feed-Kept s accepted bytes r)
