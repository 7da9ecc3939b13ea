-- ===== src/Chat/Server/Kept.antt =====
-- What no operation of the server undoes.
pub mod Events
use mathlib.Core.Path.{subst}
use system_prog.Chat.Framing.Lines.{fold_lines}
use system_prog.Chat.Framing.{ChatMessage, trim}
use system_prog.Chat.Link.Stream.{InRange, flush-InRange, flush-closed, append-InRange}
use system_prog.Chat.Link.{Link, SendAnswer, flush, append_output}
use system_prog.Chat.Server.Broadcast.{Ranged, Ranged-set, Ranged-at}
use system_prog.Chat.Server.{
  Peer, Server, left_out, send_to, broadcast, broadcast_from, full_message, named, say, say_at,
  handle_line,
}
use system_prog.Common.{
  ℕ, zero, suc, ◌+◌, ◌≡◌, ◌∙◌, append_assoc, append-nil, refl, sym, ap, Bool, true, false, Option,
  none, some, List, [], ◌∷◌, ◌++◌, if◌then◌else◌, if_both, if_true, if_false, is_empty, get_elem?,
  set, Bytes, Bool-cases, inl, inr,
}

-- A peer that is closed stays closed, and one that has given its name keeps it.
pub record Same (p q : Peer) : Type 0 where
  pub closed : p.link.connected ≡ false → q.link.connected ≡ false
  pub received : p.name_received ≡ true → q.name_received ≡ true
  pub same_name : p.name_received ≡ true → q.name ≡ p.name

pub Same-refl : (p : Peer) → Same p p
Same-refl p = record { closed = λ e. e; received = λ e. e; same_name = λ e. refl }

Same-trans : {p q r : Peer} → Same p q → Same q r → Same p r
Same-trans a b = record {
  closed = λ e. b.closed (a.closed e);
  received = λ e. b.received (a.received e);
  same_name = λ e. b.same_name (a.received e) ∙ a.same_name e;
}

-- The peers are the same and in their places; there may be more behind them.
abbrev pub Older : List Peer → List Peer → Type 0
Older [] qs = Unit
Older (p ∷ ps) [] = ⊥
Older (p ∷ ps) (q ∷ qs) = Same p q × Older ps qs

pub Older-refl : (ps : List Peer) → Older ps ps
Older-refl [] = tt
Older-refl (p ∷ ps) = (Same-refl p, Older-refl ps)

Older-trans : (ps qs rs : List Peer) → Older ps qs → Older qs rs → Older ps rs
Older-trans [] qs rs a b = tt
Older-trans (p ∷ ps) [] rs a b = absurd a
Older-trans (p ∷ ps) (q ∷ qs) [] a b = absurd b
Older-trans (p ∷ ps) (q ∷ qs) (r ∷ rs) a b = (Same-trans a.0 b.0, Older-trans ps qs rs a.1 b.1)

pub Older-append : (ps qs : List Peer) → Older ps (ps ++ qs)
Older-append [] qs = tt
Older-append (p ∷ ps) qs = (Same-refl p, Older-append ps qs)

Older-set :
    (ps : List Peer) (i : ℕ) {p : Peer} (q : Peer)
    → get_elem? ps i ≡ some p
    → Same p q
    → Older ps (set ps i q)
Older-set [] i q e h = tt
Older-set (x ∷ ps) zero {p} q e h =
    let same : p ≡ x = cc in (subst (λ y. Same y q) same h, Older-refl ps)
Older-set (x ∷ ps) (suc i) q e h = (Same-refl x, Older-set ps i q e h)

-- The peers are in range and older, and the messages have others behind them.
pub record Kept (s s' : Server) : Type 0 where
  pub ranged : Ranged s'.peers
  pub older : Older s.peers s'.peers
  pub heard : List ChatMessage
  pub messages : s'.messages ≡ s.messages ++ heard

pub Kept-refl : (s : Server) → Ranged s.peers → Kept s s
Kept-refl s r = record {
  ranged = r;
  older = Older-refl s.peers;
  heard = [];
  messages = sym (append-nil s.messages);
}

pub Kept-trans : {s t u : Server} → Kept s t → Kept t u → Kept s u
Kept-trans {s} {t} {u} a b = record {
  ranged = b.ranged;
  older = Older-trans s.peers t.peers u.peers a.older b.older;
  heard = a.heard ++ b.heard;
  messages =
      b.messages ∙ ap (λ m. m ++ b.heard) a.messages ∙ append_assoc s.messages a.heard b.heard;
}

-- Where one peer is changed, and the answers that are left.
pub put-Kept :
    (s : Server) (i : ℕ) {p : Peer} (q : Peer) (answers : List SendAnswer)
    → Ranged s.peers
    → get_elem? s.peers i ≡ some p
    → Same p q
    → InRange q.link
    → Kept s (record s { peers = set s.peers i q; answers = answers })
put-Kept s i q answers r e h k = record {
  ranged = Ranged-set s.peers i q r k;
  older = Older-set s.peers i q e h;
  heard = [];
  messages = sym (append-nil s.messages);
}

-- The output of a peer is flushed.
pub flush-Same :
    (p : Peer) (l : Link) (answers : List SendAnswer)
    → l.connected ≡ p.link.connected
    → Same p (record p { link = (flush answers l).0 })
flush-Same p l answers e = record {
  closed = λ c. flush-closed answers l (e ∙ c);
  received = λ h. h;
  same_name = λ h. refl;
}

broadcast-Older :
    (j : ℕ) (sender : Option ℕ) (bytes : Bytes) (ps : List Peer) (answers : List SendAnswer)
    → Ranged ps
    → Ranged (broadcast j sender bytes ps answers).0
      × Older ps (broadcast j sender bytes ps answers).0
unfolding broadcast
broadcast-Older j sender bytes [] answers r = (tt, tt)
broadcast-Older j sender bytes (p ∷ ps) answers r =
    let rest = broadcast-Older (suc j) sender bytes ps _ r.1 in
    let l = append_output p.link bytes in
    let first =
      if_both (λ (x : Peer × List SendAnswer). InRange x.0.link × Same p x.0) (left_out p j sender)
        _ _ (r.0, Same-refl p)
        (flush-InRange answers l (append-InRange p.link bytes r.0), flush-Same p l answers refl) in
    ((first.0, rest.0), (first.1, rest.1))

pub broadcast_from-Kept :
    (s : Server) (sender : Option ℕ) (message : ChatMessage) (bytes : Bytes)
    → Ranged s.peers
    → Kept s (broadcast_from s sender message bytes)
broadcast_from-Kept s sender message bytes r =
    let b = broadcast-Older 0 sender bytes s.peers s.answers r in
    record { ranged = b.0; older = b.1; heard = message ∷ []; messages = refl }

say-Kept :
    (s : Server) (i : ℕ) (p : Peer) (text : Bytes)
    → Ranged s.peers
    → get_elem? s.peers i ≡ some p
    → Kept s (say s i p text)
unfolding say
say-Kept s i p text r e =
    if_both (Kept s) (is_empty text) _ _ (Kept-refl s r) (elim (Bool-cases p.name_received) [
      | inl n ↦ subst (Kept s) (sym (if_true _ _ n)) (
          broadcast_from-Kept s (some i) (record { author = p.name; text = text })
            (full_message (named p) text) r)
      | inr n ↦
          let new : Same p (record p { name = text; name_received = true }) = record {
            closed = λ c. c;
            received = λ h. refl;
            same_name = λ h. cc;
          } in
          subst (Kept s) (sym (if_false _ _ n))
            (put-Kept s i _ s.answers r e new (Ranged-at s.peers i r e))
    ])

say_at-Kept :
    (s : Server) (i : ℕ) (o : Option Peer) (text : Bytes)
    → Ranged s.peers
    → get_elem? s.peers i ≡ o
    → Kept s (say_at s i o text)
say_at-Kept s i none text r e = Kept-refl s r
say_at-Kept s i (some p) text r e = say-Kept s i p text r e

pub handle_line-Kept :
    (i : ℕ) (s : Server) (line : Bytes) → Ranged s.peers → Kept s (handle_line i s line)
unfolding handle_line
handle_line-Kept i s line r = say_at-Kept s i (get_elem? s.peers i) (trim line) r refl

pub fold_lines-Kept :
    (body : Server → Bytes → Server)
    → ((s : Server) (line : Bytes) → Ranged s.peers → Kept s (body s line))
    → (ls : List Bytes) (s : Server) → Ranged s.peers
    → Kept s (fold_lines body s ls)
fold_lines-Kept body k [] s r = Kept-refl s r
fold_lines-Kept body k (line ∷ ls) s r =
    let h = k s line r in Kept-trans h (fold_lines-Kept body k ls (body s line) h.ranged)
