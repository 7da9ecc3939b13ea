-- ===== src/Chat/Client/Feed.antt =====
-- What the other side gets of what is fed to a client.
use mathlib.Core.Path.{subst}
use system_prog.Common.{
  ◌≡◌, ◌∙◌, append_assoc, append-nil, refl, sym, ap, true, false, not, ◌&&◌, [], ◌∷◌, ◌++◌,
  if◌then◌else◌, if_true, if_false, is_empty, Bytes, Bool-cases, inl, inr,
}
use system_prog.Chat.Client.{
  Client, with_name, feed_bytes, flush_output, chat_client_feed, chat_client_connect, accepted,
  has_colon,
}
use system_prog.Chat.Framing.{ErrorCode, ok, sys}
use system_prog.Chat.Link.Stream.{InRange, stream-flush, stream-append, append-InRange}
use system_prog.Chat.Link.{append_output, stream, unsent}

-- The line that goes before the first bytes.
abbrev pub name_line : Client → Bytes
name_line c = if not c.name_sent && not (is_empty c.name) then c.name ++ 10 ∷ [] else []

with_name-stream :
    (c : Client)
    → InRange c.link
    → (stream (with_name c).link ≡ stream c.link ++ name_line c) × InRange (with_name c).link
with_name-stream c h = elim (Bool-cases (not c.name_sent && not (is_empty c.name))) [
  | inl e ↦
      rw e (stream-append c.link (c.name ++ 10 ∷ []) h, append-InRange c.link (c.name ++ 10 ∷ []) h)
  | inr e ↦ rw e (sym (append-nil (stream c.link)), h)
]

with_name-sent : (c : Client) → name_line (with_name c) ≡ []
with_name-sent c = elim (Bool-cases (not c.name_sent && not (is_empty c.name))) [
  | inl e ↦ rw e refl
  | inr e ↦ rw (e, e) refl
]

-- What `feed_bytes` does, of a client.
record Fed (c : Client) (bytes : Bytes) (r : Client × ErrorCode) : Type 0 where
  streams : stream r.0.link ≡ stream c.link ++ (name_line c ++ bytes)
  said : name_line r.0 ≡ []
  answer : r.1 ≡ (if r.0.link.connected then ok else sys)

feed_bytes-Fed : (c : Client) (bytes : Bytes) → InRange c.link → Fed c bytes (feed_bytes c bytes)
unfolding feed_bytes flush_output
feed_bytes-Fed c bytes h =
    let n = with_name-stream c h in
    record {
      streams =
          stream-flush (with_name c).answers (append_output (with_name c).link bytes)
          ∙ stream-append (with_name c).link bytes n.1
          ∙ ap (λ r. r ++ bytes) n.0
          ∙ append_assoc (stream c.link) (name_line c) bytes;
      said = with_name-sent c;
      answer = refl;
    }

chat_client_feed-goes :
    (c : Client) (bytes : Bytes)
    → c.link.connected ≡ true
    → is_empty bytes ≡ false
    → chat_client_feed c bytes ≡ feed_bytes c bytes
unfolding chat_client_feed
chat_client_feed-goes c bytes o e = if_true _ _ o ∙ if_false _ _ e

-- Feeding a connected client adds to the bytes that the server gets the line with the name, if the
-- client has one that it has not sent, and then just the bytes that are fed, whatever `send` answers;
-- after it no later feed adds the name again. The call fails where `send` has closed the socket.
pub chat_client_feed_lem :
    (c : Client) (bytes : Bytes)
    → InRange c.link
    → c.link.connected ≡ true
    → is_empty bytes ≡ false
    → (stream (chat_client_feed c bytes).0.link ≡ stream c.link ++ (name_line c ++ bytes))
      × (name_line (chat_client_feed c bytes).0 ≡ [])
      × ((chat_client_feed c bytes).1
          ≡ (if (chat_client_feed c bytes).0.link.connected then ok else sys))
chat_client_feed_lem c bytes h o e =
    let f =
      subst (Fed c bytes) (sym (chat_client_feed-goes c bytes o e)) (feed_bytes-Fed c bytes h) in
    (f.streams, f.said, f.answer)

abbrev connected_to : Client → Client
connected_to c = record c { link = record c.link { connected = true; taken = [] } }

connect-goes :
    (c : Client) (addr : Bytes)
    → c.link.connected ≡ false
    → has_colon addr ≡ true
    → chat_client_connect c addr accepted ≡ (connected_to c, ok)
unfolding chat_client_connect
connect-goes c addr o a = if_false _ _ o ∙ if_true _ _ a

-- A client that has sent its name, loses its server and is connected again does not tell the new
-- server its name: what that server gets is what was left to send of the old connection, from the
-- middle of a line if so much had been sent, and the bytes that are fed.
pub feed-connect :
    (c : Client) (addr bytes : Bytes)
    → InRange c.link
    → c.link.connected ≡ false
    → c.name_sent ≡ true
    → has_colon addr ≡ true
    → is_empty bytes ≡ false
    → stream (chat_client_feed (chat_client_connect c addr accepted).0 bytes).0.link
      ≡ unsent c.link ++ bytes
feed-connect c addr bytes h o s a e =
    let c' = (connected_to c) in
    ap (λ (r : Client × ErrorCode). stream (chat_client_feed r.0 bytes).0.link)
      (connect-goes c addr o a)
    ∙ (chat_client_feed_lem c' bytes (record { within = h.within }) refl e).0
    ∙ ap (λ r. unsent c.link ++ r)
        (ap (λ r. r ++ bytes) (if_false _ _ (ap (λ b. not b && not (is_empty c.name)) s)))
