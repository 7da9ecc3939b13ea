-- ===== src/Chat/Server/Broadcast.antt =====
-- What a broadcast leaves of each peer.
use mathlib.Core.Path.{subst}
use system_prog.Common.{
  ℕ, zero, suc, ◌+◌, ◌≡◌, ◌∙◌, append_assoc, append-nil, refl, sym, ap, Bool, true, false, Option,
  some, List, [], ◌∷◌, ◌++◌, if◌then◌else◌, get_elem?, set, Bytes, arith,
}
use system_prog.Chat.Link.Stream.{
  InRange, Healthy, stream-flush, flush-Fine, stream-append, append-InRange,
}
use system_prog.Chat.Link.{SendAnswer, append_output, stream}
use system_prog.Chat.Server.{Peer, left_out, send_to, broadcast}

-- Every peer is in range.
abbrev pub Ranged : List Peer → Type 0
Ranged [] = Unit
Ranged (p ∷ ps) = InRange p.link × Ranged ps

pub Ranged-set :
    (ps : List Peer) (i : ℕ) (p : Peer) → Ranged ps → InRange p.link → Ranged (set ps i p)
Ranged-set [] i p h r = tt
Ranged-set (q ∷ ps) zero p h r = (r, h.1)
Ranged-set (q ∷ ps) (suc i) p h r = (h.0, Ranged-set ps i p h.1 r)

pub Ranged-at :
    (ps : List Peer) (i : ℕ) {p : Peer} → Ranged ps → get_elem? ps i ≡ some p → InRange p.link
Ranged-at [] i h e = cc
Ranged-at (q ∷ ps) zero {p} h e =
    let same : q ≡ p = cc in subst (λ (o : Peer). InRange o.link) same h.0
Ranged-at (q ∷ ps) (suc i) h e = Ranged-at ps i h.1 e

-- The peer is the same but for its output, which has grown by the bytes.
pub record Grown (p : Peer) (bytes : Bytes) (q : Peer) : Type 0 where
  pub same_name : q.name ≡ p.name
  pub same_received : q.name_received ≡ p.name_received
  pub same_connected : q.link.connected ≡ p.link.connected
  pub streams : stream q.link ≡ stream p.link ++ bytes

pub Grown-refl : (p : Peer) → Grown p [] p
Grown-refl p = record {
  same_name = refl;
  same_received = refl;
  same_connected = refl;
  streams = sym (append-nil (stream p.link));
}

pub Grown-trans : {p q r : Peer} {a b : Bytes} → Grown p a q → Grown q b r → Grown p (a ++ b) r
Grown-trans {p} {q} {r} {a} {b} g h = record {
  same_name = h.same_name ∙ g.same_name;
  same_received = h.same_received ∙ g.same_received;
  same_connected = h.same_connected ∙ g.same_connected;
  streams = h.streams ∙ ap (λ s. s ++ b) g.streams ∙ append_assoc (stream p.link) a b;
}

-- What a peer gets of the bytes.
abbrev pub share : Peer → ℕ → Option ℕ → Bytes → Bytes
share p j sender bytes = if left_out p j sender then [] else bytes

-- One peer and the answers after it.
record Sent (p : Peer) (bytes : Bytes) (r : Peer × List SendAnswer) : Type 0 where
  grown : Grown p bytes r.0
  range : InRange r.0.link
  answers : Healthy r.1

send_to-Sent :
    (p : Peer) (bytes : Bytes) (answers : List SendAnswer)
    → InRange p.link
    → Healthy answers
    → Sent p bytes (send_to p bytes answers)
send_to-Sent p bytes answers r h =
    let f = flush-Fine answers (append_output p.link bytes) (append-InRange p.link bytes r) h in
    record {
      grown = record {
        same_name = refl;
        same_received = refl;
        same_connected = f.open_still;
        streams = stream-flush answers (append_output p.link bytes) ∙ stream-append p.link bytes r;
      };
      range = f.range;
      answers = f.answers;
    }

one_peer :
    (b : Bool) (p : Peer) (bytes : Bytes) (answers : List SendAnswer)
    → InRange p.link
    → Healthy answers
    → Sent p (if b then [] else bytes) (if b then (p, answers) else send_to p bytes answers)
one_peer true p bytes answers r h = record { grown = Grown-refl p; range = r; answers = h }
one_peer false p bytes answers r h = send_to-Sent p bytes answers r h

pub broadcast-Healthy :
    (j : ℕ) (sender : Option ℕ) (bytes : Bytes) (ps : List Peer) (answers : List SendAnswer)
    → Ranged ps
    → Healthy answers
    → Ranged (broadcast j sender bytes ps answers).0
      × Healthy (broadcast j sender bytes ps answers).1
unfolding broadcast
broadcast-Healthy j sender bytes [] answers r h = (tt, h)
broadcast-Healthy j sender bytes (p ∷ ps) answers r h =
    let s = one_peer (left_out p j sender) p bytes answers r.0 h in
    let rest = broadcast-Healthy (suc j) sender bytes ps _ r.1 s.answers in
    ((s.range, rest.0), rest.1)

pub broadcast-Grown :
    (j : ℕ) (sender : Option ℕ) (bytes : Bytes) (ps : List Peer) (answers : List SendAnswer)
    → Ranged ps
    → Healthy answers
    → (k : ℕ) (p : Peer) → get_elem? ps k ≡ some p
    → (q : Peer) × (get_elem? (broadcast j sender bytes ps answers).0 k ≡ some q)
      × Grown p (share p (j + k) sender bytes) q
unfolding broadcast
broadcast-Grown j sender bytes [] answers r h k p at = cc
broadcast-Grown j sender bytes (p' ∷ ps) answers r h zero p at =
    let same : p' ≡ p = cc in
    let e : j + 0 ≡ j = omega arith in
    let s = one_peer (left_out p' j sender) p' bytes answers r.0 h in
    let q : Peer =
      (if◌then◌else◌ {A = Peer × List SendAnswer} (left_out p' j sender) (p', answers)
        (send_to p' bytes answers)).0 in
    (
      q,
      refl,
      subst (λ x. Grown x (share x (j + 0) sender bytes) q) same
          (subst (λ n. Grown p' (share p' n sender bytes) q) (sym e) s.grown),
    )
broadcast-Grown j sender bytes (p' ∷ ps) answers r h (suc k) p at =
    let e : suc j + k ≡ j + suc k = omega arith in
    let s = one_peer (left_out p' j sender) p' bytes answers r.0 h in
    let (q, found, g) = broadcast-Grown (suc j) sender bytes ps _ r.1 s.answers k p at in
    (q, found, subst (λ n. Grown p (share p n sender bytes) q) e g)
