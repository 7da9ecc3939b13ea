-- ===== src/Chat/Relay/Greets.antt =====
-- The first line of a peer, and a client that is new to the server.
use mathlib.Core.Path.{subst}
use system_prog.Chat.Client.Feed.{name_line, chat_client_feed_lem}
use system_prog.Chat.Client.{Client, chat_client_feed}
use system_prog.Chat.Framing.Lines.{lines, fold_lines}
use system_prog.Chat.Framing.Trim.{IsWord, trim_word, lines-line, starts-not_empty}
use system_prog.Chat.Framing.{trim, split_author}
use system_prog.Chat.Link.Stream.{InRange, Healthy}
use system_prog.Chat.Link.{stream}
use system_prog.Chat.Relay.{Relayed, relayed, rest_kept, read_lines-goes}
use system_prog.Chat.Server.Broadcast.{Ranged, Ranged-set, Ranged-at}
use system_prog.Chat.Server.Heard.{Talks}
use system_prog.Chat.Server.{Peer, Server, handle_line, say, say_at, read_lines}
use system_prog.Common.{
  ℕ, ◌≡◌, ◌≢◌, ◌∙◌, append_assoc, refl, sym, ap, true, false, not, ◌&&◌, none, some, List, [], ◌∷◌,
  ◌++◌, if_true, if_false, is_empty, get_elem?, set, get_elem?-set_self, get_elem?-set_ne, Bytes,
}

-- The server, when peer `i`, `me` before, is given a name.
abbrev named_as : Server → ℕ → Peer → Bytes → Server
named_as s i me name = record s {
  peers = set s.peers i (record me { name = name; name_received = true });
}

handle_line-named_as :
    (s : Server) (i : ℕ) (me : Peer) (name : Bytes)
    → IsWord name
    → get_elem? s.peers i ≡ some me
    → me.name_received ≡ false
    → handle_line i s name ≡ named_as s i me name
unfolding handle_line say
handle_line-named_as s i me name word at new =
    ap (λ o. say_at s i o (trim name)) at
    ∙ ap (say s i me) (trim_word name word)
    ∙ if_false _ _ (starts-not_empty name word.begins)
    ∙ if_false _ _ new

-- Where the first line of a new peer is a word without ": " in it, it is taken for its name, which no
-- one is sent; the lines behind it are recorded under that name, and passed on, as those of a peer
-- that has one.
pub read_lines-greets :
    (s : Server) (i j : ℕ) (me p : Peer) (name buffer : Bytes)
    → j ≢ i
    → IsWord name
    → split_author name ≡ none
    → get_elem? s.peers i ≡ some me
    → me.name_received ≡ false
    → get_elem? s.peers j ≡ some p
    → p.link.connected ≡ true
    → Ranged s.peers
    → Healthy s.answers
    → Relayed s name p j buffer (read_lines s i (name ++ 10 ∷ buffer))
read_lines-greets s i j me p name buffer apart word plain at new at_j up ranged healthy =
    let me' = record me { name = name; name_received = true } in
    let s1 = named_as s i me name in
    let talks : Talks s1 i name = record {
      me = me';
      at = get_elem?-set_self s.peers i me' at;
      has_name = refl;
      received = refl;
      ranged = Ranged-set s.peers i me' ranged (Ranged-at s.peers i ranged at);
      healthy = healthy;
    } in
    let found = get_elem?-set_ne s.peers i j me' (λ e. apart (sym e)) ∙ at_j in
    let (me2, s2, e, at2, r) = relayed s1 i j p name buffer apart word plain talks found up in
    let l = lines-line name buffer word.one_line in
    let heard =
      ap (λ (x : List Bytes × Bytes). fold_lines (handle_line i) s x.0) l
      ∙ ap (λ x. fold_lines (handle_line i) x (lines buffer).0)
          (handle_line-named_as s i me name word at new)
      ∙ e in
    subst (Relayed s name p j buffer)
      (sym (
        read_lines-goes s i (name ++ 10 ∷ buffer) s2 me2 heard at2
        ∙ ap (λ (x : List Bytes × Bytes). rest_kept s2 i me2 x.1) l))
      (record {
        messages = r.messages;
        hearer = r.hearer;
        found = r.found;
        bytes = r.bytes;
        sent = r.sent;
        read = r.read;
      })

chat_client_feed-first :
    (c : Client) (bytes : Bytes)
    → InRange c.link
    → c.link.connected ≡ true
    → stream c.link ≡ []
    → c.name_sent ≡ false
    → is_empty bytes ≡ false
    → IsWord c.name
    → stream (chat_client_feed c bytes).0.link ≡ c.name ++ 10 ∷ bytes
chat_client_feed-first c bytes h o empty unsaid e word =
    let unnamed =
      ap (λ b. not b && not (is_empty c.name)) unsaid
      ∙ ap not (starts-not_empty c.name word.begins) in
    (chat_client_feed_lem c bytes h o e).0
    ∙ ap (λ x. x ++ (name_line c ++ bytes)) empty
    ∙ ap (λ x. x ++ bytes) (if_true _ _ unnamed)
    ∙ append_assoc c.name (10 ∷ []) bytes

-- A client that is connected and has sent nothing yet, whose name is a word without ": " in it, feeds
-- its first bytes. Once the server, to which it is a new peer and from which the system goes on to
-- take bytes, has read all that this sends, it has recorded the lines of the bytes under that name;
-- and another open peer is sent bytes in which a client, with no part of a line before them, reads
-- the same messages.
pub chat_client_feed-greets :
    (c : Client) (s : Server) (i j : ℕ) (me p : Peer) (bytes : Bytes)
    → InRange c.link
    → c.link.connected ≡ true
    → stream c.link ≡ []
    → c.name_sent ≡ false
    → is_empty bytes ≡ false
    → j ≢ i
    → IsWord c.name
    → split_author c.name ≡ none
    → get_elem? s.peers i ≡ some me
    → me.name_received ≡ false
    → get_elem? s.peers j ≡ some p
    → p.link.connected ≡ true
    → Ranged s.peers
    → Healthy s.answers
    → Relayed s c.name p j bytes (read_lines s i (stream (chat_client_feed c bytes).0.link))
chat_client_feed-greets c s i j me p bytes h o empty unsaid e apart word plain at new at_j up ranged
      healthy =
    subst (λ b. Relayed s c.name p j bytes (read_lines s i b))
      (sym (chat_client_feed-first c bytes h o empty unsaid e word))
      (read_lines-greets s i j me p c.name bytes apart word plain at new at_j up ranged healthy)
