-- ===== src/Chat/Relay.antt =====
-- What one client says and another hears: 5/chat_server.cpp between two of 5/chat_client.cpp.
pub mod Greets
mod Told
use mathlib.Core.Path.{subst}
use system_prog.Chat.Client.{Client, buffer_input}
use system_prog.Chat.Framing.Lines.{lines, fold_lines, all_lines_lem}
use system_prog.Chat.Framing.Trim.{IsWord}
use system_prog.Chat.Framing.{ChatMessage, split_author, all_lines}
use system_prog.Chat.Link.{stream}
use system_prog.Chat.Relay.Told.{reads, reads-all_told, lines-OneLine}
use system_prog.Chat.Server.Heard.{Talks, Hears, fold_lines-Hears, all_said, all_told}
use system_prog.Chat.Server.{Peer, Server, handle_line, keep_rest, read_lines}
use system_prog.Common.{
  ℕ, ◌≡◌, ◌≢◌, ◌∙◌, refl, sym, ap, Bool, true, false, Option, none, some, List, [], ◌∷◌, ◌++◌,
  get_elem?, set, get_elem?-set_ne, Bytes, arith,
}

-- What a server makes of the lines of peer `i` in its input, and what another peer, that is `p`
-- before, gets of them and any client reads in it.
pub record Relayed (s : Server) (name : Bytes) (p : Peer) (j : ℕ) (buffer : Bytes) (s' : Server)
    : Type 0 where
  pub messages : s'.messages ≡ s.messages ++ all_said name (lines buffer).0
  pub hearer : Peer
  pub found : get_elem? s'.peers j ≡ some hearer
  pub bytes : Bytes
  pub sent : stream hearer.link ≡ stream p.link ++ bytes
  pub read :
      (c : Client)
      → c.input_buffer ≡ []
      → reads c bytes ≡ record c { messages = c.messages ++ all_said name (lines buffer).0 }

-- What is left of the input goes back to the buffer of the peer.
abbrev pub rest_kept : Server → ℕ → Peer → Bytes → Server
rest_kept s i me rest = record s { peers = set s.peers i (record me { input_buffer = rest }) }

pub read_lines-goes :
    (s : Server) (i : ℕ) (buffer : Bytes) (s' : Server) (me : Peer)
    → fold_lines (handle_line i) s (lines buffer).0 ≡ s'
    → get_elem? s'.peers i ≡ some me
    → read_lines s i buffer ≡ rest_kept s' i me (lines buffer).1
unfolding read_lines
read_lines-goes s i buffer s' me e at =
    ap (λ (r : Server × Bytes). keep_rest r.0 i (get_elem? r.0.peers i) r.1)
      (all_lines_lem (handle_line i) buffer s ∙ ap (λ x. (x, (lines buffer).1)) e)
    ∙ ap (λ o. keep_rest s' i o (lines buffer).1) at

-- The state that is left of lines that a peer with a name has said.
pub relayed :
    (s : Server) (i j : ℕ) (p : Peer) (name buffer : Bytes)
    → j ≢ i
    → IsWord name
    → split_author name ≡ none
    → Talks s i name
    → get_elem? s.peers j ≡ some p
    → p.link.connected ≡ true
    → (me : Peer) × (s' : Server) × (fold_lines (handle_line i) s (lines buffer).0 ≡ s')
      × (get_elem? s'.peers i ≡ some me)
      × Relayed s name p j buffer (rest_kept s' i me (lines buffer).1)
relayed s i j p name buffer apart word plain t at c =
    let ls = (lines buffer).0 in
    let h = fold_lines-Hears i j name apart ls s p t at c in
    let s' = fold_lines (handle_line i) s ls in
    let me' = record h.talks.me { input_buffer = (lines buffer).1 } in
    (
      h.talks.me,
      s',
      refl,
      h.talks.at,
      record {
        messages = h.messages;
        hearer = h.hearer;
        found = get_elem?-set_ne s'.peers i j me' (λ e. apart (sym e)) ∙ h.found;
        bytes = all_told name ls;
        sent = h.grown.streams;
        read = λ k e. reads-all_told name word plain k ls (lines-OneLine buffer) e;
      },
    )

-- Where a peer has given its name, a word without ": " in it, and the system goes on to take bytes,
-- the server records each of its lines that is not blank, trimmed, with that name; and what every
-- other open peer is sent for them is such that a client that reads it, with no part of a line
-- before it, gets just the messages that the server has recorded, in their order.
pub read_lines-Relayed :
    (s : Server) (i j : ℕ) (p : Peer) (name buffer : Bytes)
    → j ≢ i
    → IsWord name
    → split_author name ≡ none
    → Talks s i name
    → get_elem? s.peers j ≡ some p
    → p.link.connected ≡ true
    → Relayed s name p j buffer (read_lines s i buffer)
read_lines-Relayed s i j p name buffer apart word plain t at c =
    let (me, s', e, at', r) = relayed s i j p name buffer apart word plain t at c in
    subst (Relayed s name p j buffer) (sym (read_lines-goes s i buffer s' me e at')) r
